-- ===== src/Translation/Scheduler/Pool/Staffed.antt =====
-- The limits of app/translation/scheduler.py while its workers run.
use my_vote_server.Translation.Scheduler.Pool.Working.{
  Apart, Apart-without, IsHeld, IsStaffed, call-IsStaffed, kept_pop, works-IsStaffed,
}
use my_vote_server.Translation.Scheduler.Pool.{
  Pool, new_pool, PoolStep, calls_start, calls_submit, calls_cancel_session, calls_invalidate,
  worker_takes, worker_begins, worker_answers, worker_finishes, calls_close, Runs, fresh_run,
  one_more,
}
use my_vote_server.Translation.Scheduler.Work.{finish_held}
use my_vote_server.Translation.Scheduler.Admitting.{mark_ready_active}
use my_vote_server.Translation.Scheduler.Reachable.{init-IsValid}
use my_vote_server.Base.{
  ℕ, ◌+◌, ◌≤◌, ◌≡◌, sym, ap, subst, ◌∙◌, inl, inr, some, List, ◌∷◌, ◌++◌, arith, Option-cases,
  is_some, length, All, length-append, All-append, All-parts, get, pop, has, length-pop-lt,
}
use my_vote_server.Translation.Scheduler.{Active, Scheduler, init, finish}
use my_vote_server.Translation.Scheduler.Valid.{
  IsValid, start-IsValid, submit-IsValid, cancel_session-IsValid, invalidate-IsValid,
  execute_begin-IsValid, execute_end-IsValid, finish-IsValid, close-IsValid,
}
use my_vote_server.Translation.Scheduler.Keeping.{
  ident_of, start-Keeps, submit-Keeps, cancel_session-Keeps, invalidate-Keeps, execute_begin-Keeps,
  execute_end-Keeps, close-Keeps,
}

finish_kept :
    (sid : ℕ) (a : Active) (s : Scheduler)
    → get sid s.active ≡ some a
    → ((finish sid a.ident s).active ≡ pop sid s.active)
      × ((finish sid a.ident s).worker_count ≡ s.worker_count)
finish_kept sid a s there =
    let marked = mark_ready_active sid (record s { active = pop sid s.active }) in
    let same = finish_held sid a s there in
    (
      ap (λ (t : Scheduler). t.active) same ∙ marked.0,
      ap (λ (t : Scheduler). t.worker_count) same ∙ marked.1,
    )

finish_own-IsStaffed :
    (p : Pool) (sid : ℕ) (a : Active) (front back : List (ℕ × ℕ))
    → get sid p.scheduler.active ≡ some a
    → p.holds ≡ front ++ (sid, a.ident) ∷ back
    → IsStaffed p
    → IsStaffed (record {
      scheduler = finish sid a.ident p.scheduler;
      idle = p.idle + 1;
      holds = front ++ back;
    })
unfolding has
finish_own-IsStaffed p sid a front back there e v =
    let s = p.scheduler in
    let (active, workers) = finish_kept sid a s there in
    let (apart, others) = Apart-without front (sid, a.ident) back (subst Apart e v.apart) in
    let (early, late) =
      All-parts (IsHeld s) front ((sid, a.ident) ∷ back) (subst (All (IsHeld s)) e v.held) in
    let sizes : length p.holds ≡ length (front ++ back) + 1 =
      omega (
        arith,
        ap length e,
        length-append front ((sid, a.ident) ∷ back),
        length-append front back,
      ) in
    record {
      valid = finish-IsValid sid a s there v.valid;
      counted = omega (arith, v.counted, workers, sizes);
      enough =
          omega (
            arith,
            ap length active,
            length-pop-lt sid s.active (ap is_some there),
            v.enough,
            sizes,
          );
      held =
          kept_pop s sid (finish sid a.ident s) (front ++ back) active others
            (All-append (IsHeld s) front back early late.1);
      apart = apart;
    }

finish-IsStaffed :
    (p : Pool) (sid ident : ℕ) (front back : List (ℕ × ℕ))
    → p.holds ≡ front ++ (sid, ident) ∷ back
    → IsStaffed p
    → IsStaffed (record {
      scheduler = finish sid ident p.scheduler;
      idle = p.idle + 1;
      holds = front ++ back;
    })
unfolding ident_of
finish-IsStaffed p sid ident front back e v =
    let s = p.scheduler in
    let own =
      (All-parts (IsHeld s) front ((sid, ident) ∷ back) (subst (All (IsHeld s)) e v.held)).1.0 in
    elim (Option-cases (get sid s.active)) [
      | inl gone ↦ absurd (ground (arith, own, gone))
      | inr (a, there) ↦
          let named : a.ident ≡ ident = ground (arith, own, there) in
          subst
            (λ i.
              IsStaffed
                (record { scheduler = finish sid i s; idle = p.idle + 1; holds = front ++ back }))
            named
            (finish_own-IsStaffed p sid a front back there
              (e ∙ ap (λ i. front ++ (sid, i) ∷ back) (sym named)) v)
    ]

Step-IsStaffed : {p q : Pool} → IsStaffed p → PoolStep p q → IsStaffed q
Step-IsStaffed {p} v (calls_start s' e) =
    call-IsStaffed p s' v (start-IsValid p.scheduler s' e v.valid) (start-Keeps p.scheduler s' e)
Step-IsStaffed {p} v (calls_submit job callback) =
    call-IsStaffed p _ v (submit-IsValid job callback p.scheduler v.valid)
      (submit-Keeps job callback p.scheduler)
Step-IsStaffed {p} v (calls_cancel_session sid) =
    call-IsStaffed p _ v (cancel_session-IsValid sid p.scheduler v.valid)
      (cancel_session-Keeps sid p.scheduler)
Step-IsStaffed {p} v (calls_invalidate sid ids s' e) =
    call-IsStaffed p s' v (invalidate-IsValid sid ids p.scheduler s' e v.valid)
      (invalidate-Keeps sid ids p.scheduler s' e)
Step-IsStaffed {p} v (worker_takes idle) = works-IsStaffed p idle v
Step-IsStaffed {p} v (worker_begins sid a e) =
    call-IsStaffed p _ v (execute_begin-IsValid sid a p.scheduler e v.valid)
      (execute_begin-Keeps sid a p.scheduler e)
Step-IsStaffed {p} v (worker_answers sid a attempt fails e) =
    call-IsStaffed p _ v (execute_end-IsValid sid a attempt fails p.scheduler e v.valid)
      (execute_end-Keeps sid a attempt fails p.scheduler e)
Step-IsStaffed {p} v (worker_finishes sid ident front back e) =
    finish-IsStaffed p sid ident front back e v
Step-IsStaffed {p} v calls_close =
    call-IsStaffed p _ v (close-IsValid p.scheduler v.valid) (close-Keeps p.scheduler)

Runs-IsStaffed : {p q : Pool} → IsStaffed p → Runs p q → IsStaffed q
Runs-IsStaffed v fresh_run = v
Runs-IsStaffed v (one_more r st) = Step-IsStaffed (Runs-IsStaffed v r) st

init-IsStaffed :
    (workers most most_each : ℕ) (s : Scheduler)
    → init workers most most_each ≡ some s
    → IsStaffed (new_pool s)
unfolding init new_pool
init-IsStaffed workers most most_each s e = record {
  valid = init-IsValid workers most most_each s e;
  counted = omega arith;
  enough = ground (arith, e);
  held = tt;
  apart = tt;
}

-- A scheduler that was made with positive limits keeps them however its callers and its workers
-- interleave: no more jobs are queued than `max_pending`, nor for one session than
-- `max_pending_per_session`; each queue holds jobs of its own session alone; every session with a
-- queue and no active job is listed as ready, once, and no other session is; and no more jobs are
-- active than there are workers, as each worker takes only when its round before has ended.
pub init-Runs-IsValid :
    (workers most most_each : ℕ) (s : Scheduler) (p : Pool)
    → init workers most most_each ≡ some s
    → Runs (new_pool s) p
    → IsValid p.scheduler × (length p.scheduler.active ≤ p.scheduler.worker_count)
init-Runs-IsValid workers most most_each s p e r =
    let v = Runs-IsStaffed (init-IsStaffed workers most most_each s e) r in
    (v.valid, omega (arith, v.counted, v.enough))
