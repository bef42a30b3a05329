-- ===== src/Translation/Scheduler/Pool.antt =====
-- The workers of app/translation/scheduler.py: `start` makes `worker_count` tasks, each of which
-- takes one entry at a time, runs it and ends its round with `finish`.
pub mod Working
pub mod Staffed
use my_vote_server.Base.{ℕ, ◌+◌, ◌-◌, ◌<◌, ◌≡◌, Bool, some, List, [], ◌∷◌, ◌++◌, get}
use my_vote_server.Translation.Job.{TranslationJob}
use my_vote_server.Translation.Scheduler.{
  Active, Scheduler, start, submit, cancel_session, invalidate, Taken, ends, waits, takes, take,
  execute_begin, Attempt, execute_end, finish, close,
}

-- A scheduler, the number of its workers that have no work, and for each other worker the session
-- and the identity of the attempt that it took.
pub record Pool : Type 0 where
  pub scheduler : Scheduler
  pub idle : ℕ
  pub holds : List (ℕ × ℕ)

-- The first `submit` calls `start` before it queues anything, so the workers may stand there from
-- the beginning.
unfoldable pub new_pool : Scheduler → Pool
new_pool s = record { scheduler = s; idle = s.worker_count; holds = [] }

-- A worker that takes: it comes back with an attempt, or has still nothing.
unfoldable pub works_on : Taken → Pool → Pool
works_on ends p = p
works_on waits p = p
works_on (takes sid a) p = record p { idle = p.idle - 1; holds = (sid, a.ident) ∷ p.holds }

-- The calls of others change the scheduler alone. A worker takes only while it has no work, and one
-- that took an attempt runs it and ends its round; nothing is assumed of the number of active
-- entries.
pub data PoolStep (p : Pool) : Pool → Type 0 where
  calls_start :
      (s' : Scheduler) → start p.scheduler ≡ some s' → PoolStep p (record p { scheduler = s' })
  calls_submit :
      (job : TranslationJob) (callback : ℕ)
      → PoolStep p (record p { scheduler = (submit job callback p.scheduler).1 })
  calls_cancel_session :
      (sid : ℕ) → PoolStep p (record p { scheduler = cancel_session sid p.scheduler })
  calls_invalidate :
      (sid : ℕ) (ids : List ℕ) (s' : Scheduler)
      → invalidate sid ids p.scheduler ≡ some s'
      → PoolStep p (record p { scheduler = s' })
  worker_takes :
      0 < p.idle
      → PoolStep p (works_on (take p.scheduler).0 (record p { scheduler = (take p.scheduler).1 }))
  worker_begins :
      (sid : ℕ) (a : Active)
      → get sid p.scheduler.active ≡ some a
      → PoolStep p (record p { scheduler = execute_begin sid a p.scheduler })
  worker_answers :
      (sid : ℕ) (a : Active) (attempt : Attempt) (fails : Bool)
      → get sid p.scheduler.active ≡ some a
      → PoolStep p (record p { scheduler = (execute_end sid a attempt fails p.scheduler).1 })
  worker_finishes :
      (sid held : ℕ) (front back : List (ℕ × ℕ))
      → p.holds ≡ front ++ (sid, held) ∷ back
      → PoolStep p (record {
        scheduler = finish sid held p.scheduler;
        idle = p.idle + 1;
        holds = front ++ back;
      })
  calls_close : PoolStep p (record p { scheduler = close p.scheduler })

pub data Runs (p : Pool) : Pool → Type 0 where
  fresh_run : Runs p p
  one_more : {q r : Pool} → Runs p q → PoolStep q r → Runs p r
