-- ===== src/Examples/Parser.antt =====
-- A parser of command lines that knows one value for each flag.
use beluuga.Prelude.{
  ◌≡◌, ◌⊎◌, ◌==◌, String, List, [], ◌∷◌, Option, none, some, inl, inr, refl, ap, Bool-cases, Memᴰ,
  if◌then◌else◌,
}
use beluuga.Prelude.Int.{pos}
use beluuga.Prelude.Keys.{string_eq, nat_eq}
use beluuga.Errors.{Error, library}
use beluuga.Cli.{Command, Cli}

-- A context holds the values; numbers are 100.
abbrev pub Values : Type 0
Values = String → String

abbrev pub given : Values
given name =
    if name == "proving-system" then "sp1" else if name == "config" then "config.yaml" else "file"

unfoldable pub pick : {A : Type 0} → List (Command Values A) → String → Option Error ⊎ A
pick [] name = inl none
pick (c ∷ cs) name =
    let rest = pick cs name in if c.name == name then inr (c.action given) else rest

unfoldable pub run_first : {A : Type 0} → List (Command Values A) → List String → Option Error ⊎ A
unfolding pick
run_first cs [] = inl none
run_first cs (name ∷ _) = pick cs name

action_of : {A : Type 0} (b : A) {a : A} → ◌≡◌ {A = Option Error ⊎ A} (inr b) (inr a) → b ≡ a
action_of b h = ap (λ r. elim r [ inl _ ↦ b | inr x ↦ x ]) h

pick-calls :
    {A : Type 0} (commands : List (Command Values A)) (name : String) (a : A)
    → pick commands name ≡ inr a
    → (c : Command Values A) × Memᴰ c commands × (ctx : Values) × Unit {0} × (c.action ctx ≡ a)
unfolding pick
pick-calls [] name a h = absurd cc
pick-calls (c ∷ cs) name a h = elim (Bool-cases (c.name == name)) [
  | inl here ↦ (c, Memᴰ.head refl, given, tt, action_of (c.action given) (rw here at h))
  | inr there ↦
      let (d, mem, ctx, _, done) = pick-calls cs name a (rw there at h) in
      (d, Memᴰ.tail mem, ctx, tt, done)
]

pub run_first-calls :
    {A : Type 0} (cs : List (Command Values A)) (args : List String) (a : A)
    → run_first cs args ≡ inr a
    → (c : Command Values A) × Memᴰ c cs × (ctx : Values) × Unit {0} × (c.action ctx ≡ a)
unfolding run_first
run_first-calls cs [] a h = absurd cc
run_first-calls cs (name ∷ _) a h = pick-calls cs name a h

-- A program without commands wants an argument.
unfoldable pub run_program : {A : Type 0} → Command Values A → List String → Option Error ⊎ A
run_program app [] = inl (some (library "required flag"))
run_program app (_ ∷ _) = inr (app.action given)

pub run_program-calls :
    {A : Type 0} (app : Command Values A) (args : List String) (a : A)
    → run_program app args ≡ inr a
    → (ctx : Values) × Unit {0} × (app.action ctx ≡ a)
unfolding run_program
run_program-calls app [] a h = absurd cc
run_program-calls app (_ ∷ _) a h = (given, tt, action_of (app.action given) h)

abbrev pub cli : Cli
cli = record {
  Context = Values;
  string = λ name ctx. ctx name;
  int = λ name ctx. pos 100;
  Parses = λ flags args ctx. Unit {0};
  run = run_first;
  run-calls = run_first-calls;
  run_app = run_program;
  run_app-calls = run_program-calls;
}
