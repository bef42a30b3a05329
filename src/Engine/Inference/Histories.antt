-- ===== src/Engine/Inference/Histories.antt =====
-- AsrInferenceScheduler of MyVote-Speaker-Update/src/myvote_engine/inference_scheduler.py under any
-- interleaving of its callers and its loop.
use my_vote_server.Base.{ℕ, ◌≡◌, refl, subst, true, false, none, some, [], arith}
use my_vote_server.Engine.Inference.{
  Outcome, Call, AsrScheduler, make, notify, Priority, submit, cancel, Admission, run_next,
  complete, close,
}
use my_vote_server.Engine.Inference.Bookkeeping.{
  is_tracked, has_waiting, IsValid, cancel-IsValid, close-IsValid, submit-IsValid,
}
use my_vote_server.Engine.Inference.Picking.{run_next-IsValid, complete-IsValid}

-- One piece of the code between two awaits: of a caller, of the closer, or of the loop, when it
-- chooses or when the native call that it runs ends.
pub data Step (s : AsrScheduler) : AsrScheduler → Type 0 where
  submits : (p : Priority) (now : ℕ) → Step s (submit p now s).1
  cancels : (k : ℕ) → Step s (cancel k s)
  notifies : Step s (notify s)
  closes : Step s (close s)
  turns :
      (now : Call → ℕ) (admission : Call → Admission)
      → s.worker ≡ true
      → s.active ≡ none
      → Step s (run_next now admission s)
  completes :
      (now : Call → ℕ) (admission : Call → Admission) (c : Call) (o : Outcome)
      → s.active ≡ some c
      → Step s (complete now admission c o s)

pub data Reach (s : AsrScheduler) : AsrScheduler → Type 0 where
  here : Reach s s
  next : {t r : AsrScheduler} → Reach s t → Step t r → Reach s r

notify-IsValid : (s : AsrScheduler) → IsValid s → IsValid (notify s)
unfolding notify is_tracked has_waiting
notify-IsValid s v = record {
  primary_bounded = v.primary_bounded;
  secondary_bounded = v.secondary_bounded;
  tracked = v.tracked;
  served = v.served;
  owned = v.owned;
  quiet = v.quiet;
}

Step-IsValid : {s t : AsrScheduler} → IsValid s → Step s t → IsValid t
Step-IsValid {s} v (submits p now) = submit-IsValid p now s v
Step-IsValid {s} v (cancels k) = cancel-IsValid k s v
Step-IsValid {s} v notifies = notify-IsValid s v
Step-IsValid {s} v closes = close-IsValid s v
Step-IsValid {s} v (turns now admission w f) = run_next-IsValid now admission s v w f
Step-IsValid {s} v (completes now admission c o a) = complete-IsValid now admission c o s v a

Reach-IsValid : {s t : AsrScheduler} → IsValid s → Reach s t → IsValid t
Reach-IsValid v here = v
Reach-IsValid v (next r st) = Step-IsValid (Reach-IsValid v r) st

make-IsValid :
    (ticks max_wait max_primary max_secondary : ℕ) (s : AsrScheduler)
    → make ticks max_wait max_primary max_secondary ≡ some s
    → IsValid s
unfolding make is_tracked has_waiting
make-IsValid ticks max_wait max_primary max_secondary s e =
    subst IsValid {x = fresh} {y = s} (ground (arith, e)) (record {
      primary_bounded = omega arith;
      secondary_bounded = omega arith;
      tracked = λ k h. absurd (omega (arith, h));
      served = refl;
      owned = refl;
      quiet = refl;
    })
  where
    fresh : AsrScheduler
    fresh = record {
      secondary_max_wait = max_wait;
      max_primary_pending = max_primary;
      max_secondary_pending = max_secondary;
      primary = [];
      secondary = [];
      futures = [];
      next_future = 0;
      changed = false;
      worker = false;
      active = none;
      closed = false;
      primary_calls = 0;
      secondary_calls = 0;
      secondary_admission_timeouts = 0;
      cancelled_queued = 0;
    }

-- However callers, the loop and the closer interleave: both queues keep their limits; no accepted
-- call is lost, as each one is answered, waits in a queue or runs; while one waits or runs, the
-- loop's task is there; and nothing waits once the scheduler is closed.
pub make-Reach-IsValid :
    (ticks max_wait max_primary max_secondary : ℕ) (s t : AsrScheduler)
    → make ticks max_wait max_primary max_secondary ≡ some s
    → Reach s t
    → IsValid t
make-Reach-IsValid ticks max_wait max_primary max_secondary s t e r =
    Reach-IsValid (make-IsValid ticks max_wait max_primary max_secondary s e) r
