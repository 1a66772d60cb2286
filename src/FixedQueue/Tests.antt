-- ===== src/FixedQueue/Tests.antt =====
-- Runs of the queue, and its theorems at concrete queues.
use undici.Base.{ℕ, ◌≡◌, refl, true, false, some, none, List, [], ◌∷◌}
use undici.FixedQueue.{new_queue, push, shift, is_empty}
use undici.FixedQueue.Spec.{Call, put, get, ask, done, item, empty, spec_run, run}
use undici.FixedQueue.Run.{run-new_queue}

abbrev calls : List (Call ℕ)
calls = ask ∷ put 4 ∷ put 5 ∷ get ∷ ask ∷ get ∷ get ∷ ask ∷ []

run-calls :
    run new_queue calls
    ≡ empty true
      ∷ done
      ∷ done
      ∷ item (some 4)
      ∷ empty false
      ∷ item (some 5)
      ∷ item none
      ∷ empty true
      ∷ []
unfolding run push shift is_empty
run-calls = refl

run-new_queue_example : run new_queue calls ≡ spec_run [] calls
run-new_queue_example = run-new_queue calls
