-- ===== src/Translation/Scheduler/Reachable.antt =====
-- What holds of a scheduler of app/translation/scheduler.py after any history of steps.
use my_vote_server.Base.{ℕ, ◌≡◌, some, [], arith, get, has, total}
use my_vote_server.Translation.Scheduler.{Scheduler, init, queue_of}
use my_vote_server.Translation.Scheduler.Steps.{Reach, here, next}
use my_vote_server.Translation.Scheduler.Valid.{IsValid, Step-IsValid}

Reach-IsValid : {s t : Scheduler} → IsValid s → Reach s t → IsValid t
Reach-IsValid v here = v
Reach-IsValid v (next r st) = Step-IsValid (Reach-IsValid v r) st

pub init-IsValid :
    (workers most most_each : ℕ) (s : Scheduler) → init workers most most_each ≡ some s → IsValid s
unfolding init queue_of get has total
init-IsValid workers most most_each s e = record {
  tracked = λ k. ground arith;
  bounded = record {
    within_total = ground arith;
    within_session = λ k. ground arith;
    owned = λ k. rw no_queue tt;
    listed_once = ground arith;
  };
  running = record { of_session = rw no_active tt };
}
  where
    no_queue : s.pending ≡ []
    no_queue = ground arith

    no_active : s.active ≡ []
    no_active = ground arith

pub init-Reach-IsValid :
    (workers most most_each : ℕ) (s t : Scheduler)
    → init workers most most_each ≡ some s
    → Reach s t
    → IsValid t
init-Reach-IsValid workers most most_each s t e r =
    Reach-IsValid (init-IsValid workers most most_each s e) r
