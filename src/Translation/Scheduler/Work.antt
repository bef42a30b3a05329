-- ===== src/Translation/Scheduler/Work.antt =====
-- The workers' side of app/translation/scheduler.py and the bookkeeping.
use my_vote_server.Base.{
  ℕ, ◌≡◌, inl, inr, Bool, true, false, ◌||◌, some, List, [], ◌∷◌, arith, ==_refl, Bool-cases,
  remove, contains-remove, get, put, pop, has, has-put, has-pop, get_or_else-put, get_or_else-pop,
}
use my_vote_server.Translation.Scheduler.{
  translation_queue_wait, translation_stale_discarded, Entry, absent, running, done, Active,
  Scheduler, record_metric, queue_of, mark_ready, activate, execute_begin, Attempt, returned,
  raised, note_attempt, execute_end, is_held, finish,
}
use my_vote_server.Translation.Scheduler.Invariant.{IsTracked, mark_ready-IsTracked}
use my_vote_server.Translation.Scheduler.Admission.{metric-IsTracked}

-- An active entry may be put in place of another one that is there.
reactivate-IsTracked :
    (sid k : ℕ) (a : Active) (s : Scheduler)
    → has sid s.active ≡ true
    → IsTracked s k
    → IsTracked (record s { active = put sid a s.active }) k
unfolding queue_of
reactivate-IsTracked sid k a s held t = ground (arith, has-put sid k a s.active)

pub execute_begin-IsTracked :
    (sid k : ℕ) (a : Active) (s : Scheduler)
    → has sid s.active ≡ true
    → IsTracked s k
    → IsTracked (execute_begin sid a s) k
unfolding execute_begin
execute_begin-IsTracked sid k a s held t = ground (
  arith,
  reactivate-IsTracked sid k (record a { task = running }) s held t,
  metric-IsTracked translation_queue_wait k
      (record s { active = put sid (record a { task = running }) s.active }),
)

note_attempt-IsTracked :
    (attempt : Attempt) (fails : Bool) (k : ℕ) (s : Scheduler)
    → IsTracked s k
    → IsTracked (note_attempt attempt fails s) k
unfolding note_attempt record_metric queue_of
note_attempt-IsTracked (returned r) fails k s t = ground arith
note_attempt-IsTracked (raised c) fails k s t = ground arith

pub execute_end-IsTracked :
    (sid k : ℕ) (a : Active) (attempt : Attempt) (fails : Bool) (s : Scheduler)
    → has sid s.active ≡ true
    → IsTracked s k
    → IsTracked (execute_end sid a attempt fails s).1 k
unfolding execute_end
execute_end-IsTracked sid k a attempt fails s held t =
    let ended = record s { active = put sid (record a { task = done }) s.active } in
    let kept = reactivate-IsTracked sid k (record a { task = done }) s held t in
    elim (Bool-cases (a.stale || s.closing)) [
      | inl e ↦ rw e (metric-IsTracked translation_stale_discarded k ended kept)
      | inr e ↦ rw e (note_attempt-IsTracked attempt fails k ended kept)
    ]

pub finish_held-IsTracked :
    (sid k : ℕ) (s : Scheduler)
    → ((j : ℕ) → IsTracked s j)
    → IsTracked (mark_ready sid (record s { active = pop sid s.active })) k
unfolding queue_of
finish_held-IsTracked sid k s t =
    mark_ready-IsTracked sid k (record s { active = pop sid s.active }) (ground (arith, t k))
      (ground (arith, t k)) (ground (arith, t k))
      (ground (arith, t sid, has-pop sid sid s.active, ==_refl sid))
      (ground (arith, t k, has-pop sid k s.active))

-- The worker's own entry is the one under its session, so it is taken away.
pub finish_held :
    (sid : ℕ) (a : Active) (s : Scheduler)
    → get sid s.active ≡ some a
    → finish sid a.ident s ≡ mark_ready sid (record s { active = pop sid s.active })
unfolding finish is_held
finish_held sid a s e = rw (e, is_held) (rw (==_refl a.ident))

pub activate-IsTracked :
    (sid k : ℕ) (e : Entry) (rest : List Entry) (s : Scheduler)
    → queue_of sid s ≡ e ∷ rest
    → has sid s.active ≡ false
    → IsTracked s k
    → IsTracked
        (activate sid e rest
          (record s { ready = remove sid s.ready; ready_set = remove sid s.ready_set })).1
        k
unfolding activate queue_of
activate-IsTracked sid k e rest s q idle t = ground (
  arith,
  contains-remove sid k s.ready,
  contains-remove sid k s.ready_set,
  has-pop sid k s.pending,
  has-put sid k rest s.pending,
  get_or_else-pop sid k [] s.pending,
  get_or_else-put sid k rest [] s.pending,
  has-put sid k (record { ident = s.next_ident; entry = e; task = absent; stale = false }) s.active,
)
