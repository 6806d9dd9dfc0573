-- ===== src/Chain/Watch/Delivered.antt =====
-- What a subscription delivers.
use beluuga.Prelude.{List, [], ◌∷◌, ◌++◌, ◌≡◌, ◌⊎◌, inl, inr, refl, sym, ◌∙◌, append_assoc}
use beluuga.Errors.{Error, ok, err}
use beluuga.Chain.Watch.{
  Bound, NewBatchEvent, Place, selecting, offering, ended, Feed, parse_new_batch, Step, arrive,
  take, refuse, deliver, stop, stop_offering, Reach, start, later,
}

regroup :
    {A : Type 0} (taken : List A) {xs rest : List A} {x : A}
    → xs ≡ x ∷ rest
    → taken ++ xs ≡ (taken ++ x ∷ []) ++ rest
regroup taken {rest = rest} {x} first = rw first (sym (append_assoc taken (x ∷ []) rest))

module _ (bound : Bound) where
  open bound use {Log}

  -- The events are those of the logs, one for one, in order.
  abbrev pub Decodes : List Log → List (NewBatchEvent Log) → Type 0
  Decodes [] [] = Unit
  Decodes (l ∷ ls) (e ∷ es) = (parse_new_batch bound l ≡ ok e) × Decodes ls es
  Decodes _ _ = ⊥

  Decodes-append :
      (ls : List Log) (es : List (NewBatchEvent Log)) (l : Log) {e : NewBatchEvent Log}
      → Decodes ls es
      → parse_new_batch bound l ≡ ok e
      → Decodes (ls ++ l ∷ []) (es ++ e ∷ [])
  Decodes-append [] [] l d h = (h, tt)
  Decodes-append [] (e ∷ es) l d h = elim d [ ]
  Decodes-append (k ∷ ls) [] l d h = elim d [ ]
  Decodes-append (k ∷ ls) (e ∷ es) l (first, d) h = (first, Decodes-append ls es l d h)

  -- One event was unpacked and not received.
  abbrev pub LosesOne : List Log → List (NewBatchEvent Log) → Type 0
  LosesOne taken sink = (e : NewBatchEvent Log) × Decodes taken (sink ++ e ∷ [])

  -- The last log could not be unpacked.
  pub record Refuses (taken : List Log) (sink : List (NewBatchEvent Log)) : Type 0 where
    pub before : List Log
    pub log : Log
    pub error : Error
    pub is_last : taken ≡ before ++ log ∷ []
    pub decodes : Decodes before sink
    pub refused : parse_new_batch bound log ≡ err error

  abbrev pub Taken : Place Log → List Log → List (NewBatchEvent Log) → Type 0
  Taken selecting taken sink = Decodes taken sink
  Taken (offering e) taken sink = Decodes taken (sink ++ e ∷ [])
  Taken (ended x) taken sink = Decodes taken sink ⊎ (LosesOne taken sink ⊎ Refuses taken sink)

  pub record Delivers (f : Feed Log) : Type 0 where
    pub taken : List Log
    pub in_order : f.history ≡ taken ++ f.logs
    pub at_place : Taken f.place taken f.sink

  Step-Delivers : {f g : Feed Log} → Step bound f g → Delivers f → Delivers g
  Step-Delivers {f} (arrive log) d = record {
    taken = d.taken;
    in_order = rw (d.in_order) (append_assoc d.taken f.logs (log ∷ []));
    at_place = d.at_place;
  }
  Step-Delivers {f} (take {log} {rest} here first parsed) d = record {
    taken = d.taken ++ log ∷ [];
    in_order = d.in_order ∙ regroup d.taken first;
    at_place = Decodes-append d.taken f.sink log (rw here at d.at_place) parsed;
  }
  Step-Delivers {f} (refuse {log} {rest} {x} here first parsed) d = record {
    taken = d.taken ++ log ∷ [];
    in_order = d.in_order ∙ regroup d.taken first;
    at_place = inr (
        inr (record {
          before = d.taken;
          log = log;
          error = x;
          is_last = refl;
          decodes = rw here at d.at_place;
          refused = parsed;
        }));
  }
  Step-Delivers {f} (deliver here) d = record {
    taken = d.taken;
    in_order = d.in_order;
    at_place = rw here at d.at_place;
  }
  Step-Delivers {f} (stop x here) d = record {
    taken = d.taken;
    in_order = d.in_order;
    at_place = inl (rw here at d.at_place);
  }
  Step-Delivers {f} (stop_offering {e} x here) d = record {
    taken = d.taken;
    in_order = d.in_order;
    at_place = inr (inl (e, rw here at d.at_place));
  }

  -- In every state of a subscription, the logs that its goroutine has taken are the first that arrived,
  -- and the program has received their events, one for one and in order: all of them while the goroutine
  -- waits for a log, all but the one it offers while it offers one. When it has ended, all of them, or
  -- all but the last, which was not received or could not be unpacked.
  pub Reach-Delivers : {f : Feed Log} → Reach bound f → Delivers f
  Reach-Delivers start = record { taken = []; in_order = refl; at_place = tt }
  Reach-Delivers (later r step) = Step-Delivers step (Reach-Delivers r)
