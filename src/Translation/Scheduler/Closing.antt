-- ===== src/Translation/Scheduler/Closing.antt =====
-- `close` of app/translation/scheduler.py and the bookkeeping.
use my_vote_server.Base.{
  ℕ, refl, ◌∙◌, inl, inr, true, List, [], ◌∷◌, arith, Option-cases, get, has, keys, total,
}
use my_vote_server.Translation.Scheduler.{
  Active, Scheduler, record_metric, queue_of, cancel_active, cancel_current, cancel_all, close,
}
use my_vote_server.Translation.Scheduler.Invariant.{IsTracked}
use my_vote_server.Translation.Scheduler.Bounds.{IsBounded, SameRest}
use my_vote_server.Translation.Scheduler.Running.{
  IsRunning, same_active-IsRunning, cancel_current-IsRunning,
}

cancel_active-SameRest : (sid : ℕ) (a : Active) (s : Scheduler) → SameRest s (cancel_active sid a s)
unfolding cancel_active record_metric
cancel_active-SameRest sid a s = ground arith

cancel_current-SameRest : (sid : ℕ) (s : Scheduler) → SameRest s (cancel_current sid s)
unfolding cancel_current
cancel_current-SameRest sid s = elim (Option-cases (get sid s.active)) [
  | inl e ↦ rw (e, cancel_current) (refl, refl, refl, refl, refl, refl)
  | inr (a, e) ↦ rw (e, cancel_current) (cancel_active-SameRest sid a s)
]

pub cancel_all-SameRest : (sids : List ℕ) (s : Scheduler) → SameRest s (cancel_all sids s)
unfolding cancel_all
cancel_all-SameRest [] s = (refl, refl, refl, refl, refl, refl)
cancel_all-SameRest (sid ∷ sids) s =
    let (p, r, rs, c, m, ms) = cancel_current-SameRest sid s in
    let (p', r', rs', c', m', ms') = cancel_all-SameRest sids (cancel_current sid s) in
    (p' ∙ p, r' ∙ r, rs' ∙ rs, c' ∙ c, m' ∙ m, ms' ∙ ms)

cancel_all-IsRunning : (sids : List ℕ) (s : Scheduler) → IsRunning s → IsRunning (cancel_all sids s)
unfolding cancel_all
cancel_all-IsRunning [] s r = r
cancel_all-IsRunning (sid ∷ sids) s r =
    cancel_all-IsRunning sids (cancel_current sid s) (cancel_current-IsRunning sid s r)

pub close-IsRunning : (s : Scheduler) → IsRunning s → IsRunning (close s)
unfolding close
close-IsRunning s r = cancel_all-IsRunning (keys s.active) _ (same_active-IsRunning s _ refl r)

pub close-SameRest :
    (s : Scheduler)
    → SameRest (record s { closing = true; pending = []; ready = []; ready_set = [] }) (close s)
unfolding close
close-SameRest s = cancel_all-SameRest (keys s.active) _

pub close-IsTracked : (k : ℕ) (s : Scheduler) → IsTracked (close s) k
unfolding queue_of has get
close-IsTracked k s =
    let (p, r, rs, c, m, ms) = close-SameRest s in
    record { stored = rw p; listed = rw (r, p); mirrored = rw (rs, r); emptied = λ e. rw p }

pub close-IsBounded : (s : Scheduler) → IsBounded (close s)
unfolding queue_of get total
close-IsBounded s =
    let (p, r, rs, c, m, ms) = close-SameRest s in
    record {
      within_total = rw p (omega arith);
      within_session = λ k. rw p (omega arith);
      owned = λ k. rw p tt;
      listed_once = rw r;
    }
