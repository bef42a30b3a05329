-- ===== src/Translation/Scheduler/Steps.antt =====
-- The steps that the tasks of the event loop take on one scheduler of
-- app/translation/scheduler.py, in any order. Callers start, submit, cancel, invalidate and close
-- at any time, and workers take work, run it and finish it; Pool says which worker does what.
use my_vote_server.Base.{ℕ, ◌≡◌, Bool, some, List, get}
use my_vote_server.Translation.Job.{TranslationJob}
use my_vote_server.Translation.Scheduler.{
  Active, Scheduler, start, submit, cancel_session, invalidate, take, execute_begin, Attempt,
  execute_end, finish, close,
}

pub data Step (s : Scheduler) : Scheduler → Type 0 where
  starts : (s' : Scheduler) → start s ≡ some s' → Step s s'
  submits : (job : TranslationJob) (callback : ℕ) → Step s (submit job callback s).1
  cancels : (sid : ℕ) → Step s (cancel_session sid s)
  invalidates :
      (sid : ℕ) (ids : List ℕ) (s' : Scheduler) → invalidate sid ids s ≡ some s' → Step s s'
  works : Step s (take s).1
  begins : (sid : ℕ) (a : Active) → get sid s.active ≡ some a → Step s (execute_begin sid a s)
  answers :
      (sid : ℕ) (a : Active) (attempt : Attempt) (fails : Bool)
      → get sid s.active ≡ some a
      → Step s (execute_end sid a attempt fails s).1
  finishes : (sid : ℕ) (a : Active) → get sid s.active ≡ some a → Step s (finish sid a.ident s)
  closes : Step s (close s)

-- What a scheduler with these limits can come to.
pub data Reach (s : Scheduler) : Scheduler → Type 0 where
  here : Reach s s
  next : {t u : Scheduler} → Reach s t → Step t u → Reach s u
