-- ===== src/TaskSender/Text/Padding.antt =====
-- White space around the name of a proving system.
use Prim.Native.Char.{Char, code}
use Prim.Native.String.{◌++◌ as append}
use Prim.Native.String.append.{nil, cons}
use beluuga.Prelude.{◌≡◌, true, String, refl, ap, ◌∙◌}
use beluuga.TaskSender.Text.{
  is_space, trim_left, trim_cons, trim_right, trim_space, by_name, parse_proving_system,
}

-- A text of white space only.
abbrev pub IsBlank : String → Type 0
IsBlank String.[] = Unit
IsBlank (String.◌∷◌ c s) = (is_space (code c) ≡ true) × IsBlank s

trim_right-blank : (pad : String) → IsBlank pad → trim_right pad ≡ String.[]
unfolding trim_right
trim_right-blank String.[] h = refl
trim_right-blank (String.◌∷◌ c s) h = rw (trim_right-blank s h.1) (rw h.0 refl)

trim_right-append : (s pad : String) → IsBlank pad → trim_right (append s pad) ≡ trim_right s
unfolding trim_right
trim_right-append String.[] pad h = ap trim_right (nil pad) ∙ trim_right-blank pad h
trim_right-append (String.◌∷◌ c s) pad h =
    ap trim_right (cons c s pad) ∙ ap (trim_cons c) (trim_right-append s pad h)

trim_left-cons :
    (c : Char) (u : String) → is_space (code c) ≡ true → trim_left (trim_cons c u) ≡ trim_left u
unfolding trim_left
trim_left-cons c String.[] h = rw h refl
trim_left-cons c (String.◌∷◌ d s) h = rw h refl

trim_space-append : (pad s : String) → IsBlank pad → trim_space (append pad s) ≡ trim_space s
unfolding trim_space
trim_space-append String.[] s h = ap (λ t. trim_left (trim_right t)) (nil s)
trim_space-append (String.◌∷◌ c pad) s h =
    ap (λ t. trim_left (trim_right t)) (cons c pad s)
    ∙ trim_left-cons c (trim_right (append pad s)) h.0
    ∙ trim_space-append pad s h.1

-- White space before and after the name of a proving system does not matter.
pub parse_ignores_blank :
    (before s after : String)
    → IsBlank before
    → IsBlank after
    → parse_proving_system (append before (append s after)) ≡ parse_proving_system s
unfolding parse_proving_system trim_space
parse_ignores_blank before s after hb ha =
    ap by_name
      (trim_space-append before (append s after) hb ∙ ap trim_left (trim_right-append s after ha))
