-- ===== src/FixedQueue/Run.antt =====
-- No sequence of calls tells the queue from a first-in first-out list.
use undici.Base.{◌≡◌, refl, ap₂, ap, List, [], ◌∷◌}
use undici.FixedQueue.{FixedQueue, new_queue}
use undici.FixedQueue.Spec.{Call, put, get, ask, done, item, empty, spec_run, run}
use undici.FixedQueue.Refine.{Repr, new_queue-Repr, push-Repr}
use undici.FixedQueue.Shift.{shift-Repr, is_empty-Repr}

module _ {ℓ} {A : Type ℓ} where
  run_refines :
      (calls : List (Call A)) {q : FixedQueue A} {items : List A}
      → Repr q items
      → run q calls ≡ spec_run items calls
  unfolding run spec_run
  run_refines [] v = refl
  run_refines (put x ∷ calls) v = ap (◌∷◌ done) (run_refines calls (push-Repr x v))
  run_refines (get ∷ calls) v =
      let (same, left) = shift-Repr v in ap₂ ◌∷◌ (ap item same) (run_refines calls left)
  run_refines (ask ∷ calls) v = ap₂ ◌∷◌ (ap empty (is_empty-Repr v)) (run_refines calls v)

  -- Every sequence of `push`, `shift` and `isEmpty` calls on a new queue gets the answers that a
  -- first-in first-out list gives, however many buffers come and go.
  pub run-new_queue : (calls : List (Call A)) → run new_queue calls ≡ spec_run [] calls
  run-new_queue calls = run_refines calls new_queue-Repr
