-- ===== src/Chain/Watch/Received.antt =====
-- The raw logs behind the events that a subscription has delivered.
use beluuga.Prelude.{◌≡◌, ◌∙◌, List, [], ◌∷◌, ◌++◌, refl, sym, ap, inl, inr, Memᴰ, append_left}
use beluuga.Errors.{ok}
use beluuga.Chain.Watch.{
  Bound, NewBatchEvent, Place, selecting, offering, ended, Feed, parse_new_batch, Reach,
}
use beluuga.Chain.Watch.Delivered.{Decodes, Taken, Reach-Delivers}

module _ (bound : Bound) where
  open bound use {Log}

  -- The log that an event was unpacked from.
  abbrev pub Raw : List Log → NewBatchEvent Log → Type 0
  Raw logs e = (raw : Log) × Memᴰ raw logs × (parse_new_batch bound raw ≡ ok e)

  Raw-left : (ls ks : List Log) {e : NewBatchEvent Log} → Raw ls e → Raw (ls ++ ks) e
  Raw-left ls ks (raw, mem, parsed) = (raw, append_left ks mem, parsed)

  Decodes-Raw :
      (ls : List Log) (es : List (NewBatchEvent Log)) {e : NewBatchEvent Log}
      → Decodes bound ls es
      → Memᴰ e es
      → Raw ls e
  Decodes-Raw [] [] d m = elim m [ ]
  Decodes-Raw [] (_ ∷ _) d m = elim d [ ]
  Decodes-Raw (_ ∷ _) [] d m = elim m [ ]
  Decodes-Raw (l ∷ ls) (x ∷ es) (first, d) (Memᴰ.head e) =
      (l, Memᴰ.head refl, first ∙ ap ok (sym e))
  Decodes-Raw (l ∷ ls) (x ∷ es) (first, d) (Memᴰ.tail m) =
      let (raw, mem, parsed) = Decodes-Raw ls es d m in (raw, Memᴰ.tail mem, parsed)

  Taken-Raw :
      (place : Place Log) (taken : List Log) (sink : List (NewBatchEvent Log))
      {e : NewBatchEvent Log}
      → Taken bound place taken sink
      → Memᴰ e sink
      → Raw taken e
  Taken-Raw selecting taken sink d m = Decodes-Raw taken sink d m
  Taken-Raw (offering x) taken sink d m =
      Decodes-Raw taken (sink ++ x ∷ []) d (append_left (x ∷ []) m)
  Taken-Raw (ended _) taken sink (inl d) m = Decodes-Raw taken sink d m
  Taken-Raw (ended _) taken sink (inr (inl (x, d))) m =
      Decodes-Raw taken (sink ++ x ∷ []) d (append_left (x ∷ []) m)
  Taken-Raw (ended _) taken sink (inr (inr r)) m =
      rw (r.is_last) (Raw-left r.before (r.log ∷ []) (Decodes-Raw r.before sink r.decodes m))

  -- Each event that a subscription has delivered was unpacked from a log that had arrived.
  pub received-Raw :
      {f : Feed Log} {e : NewBatchEvent Log} → Reach bound f → Memᴰ e f.sink → Raw f.history e
  received-Raw {f} reach m =
      let d = Reach-Delivers bound reach in
      rw (d.in_order) (Raw-left d.taken f.logs (Taken-Raw f.place d.taken f.sink d.at_place m))
