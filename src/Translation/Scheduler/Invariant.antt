-- ===== src/Translation/Scheduler/Invariant.antt =====
-- The scheduler's bookkeeping, and that each operation of app/translation/scheduler.py keeps it.
use my_vote_server.Base.{
  ℕ, ◌≡◌, refl, inl, inr, true, false, not, ◌&&◌, some, List, [], ◌∷◌, arith, ◌==◌, Bool-cases,
  Option-cases, is_empty, count, contains, contains-append, contains-remove, get, put, pop, has,
  get-put, has-put, has-pop, get_or_else-put, get_or_else-pop,
}
use my_vote_server.Translation.Scheduler.{
  Entry, Active, Scheduler, queue_of, mark_ready, forget_ready, cancel_task, cancel_active,
  is_replaced, replace_first, enqueue, cancel_current, cancel_session, drop_segments, prune,
  cancel_segments, invalidate,
}

-- What the bookkeeping says of one session.
pub record IsTracked (s : Scheduler) (k : ℕ) : Type 0 where
  -- No empty queue is kept.
  pub stored : has k s.pending ≡ not (is_empty (queue_of k s))
  -- A session is ready exactly when it has a queue and no active entry.
  pub listed : contains k s.ready ≡ (has k s.pending && not (has k s.active))
  pub mirrored : contains k s.ready_set ≡ contains k s.ready
  -- After `close` nothing is queued.
  pub emptied : s.closing ≡ true → has k s.pending ≡ false

-- `mark_ready` makes the listing right for its session, and keeps it for the others.
pub mark_ready-IsTracked :
    (sid k : ℕ) (s : Scheduler)
    → has k s.pending ≡ not (is_empty (queue_of k s))
    → contains k s.ready_set ≡ contains k s.ready
    → (s.closing ≡ true → has k s.pending ≡ false)
    → (contains sid s.ready ≡ true → (has sid s.active ≡ false) × (has sid s.pending ≡ true))
    → ((k == sid) ≡ false → contains k s.ready ≡ (has k s.pending && not (has k s.active)))
    → IsTracked (mark_ready sid s) k
unfolding mark_ready
mark_ready-IsTracked sid k s stored mirrored emptied self others =
    ground (arith, contains-append k s.ready (sid ∷ []))

-- Marking an active entry stale changes nothing that the bookkeeping reads.
pub cancel_active-IsTracked :
    (sid k : ℕ) (a : Active) (s : Scheduler)
    → get sid s.active ≡ some a
    → IsTracked s k
    → IsTracked (cancel_active sid a s) k
unfolding cancel_active has queue_of
cancel_active-IsTracked sid k a s held t =
    ground (arith, get-put sid k (record a { stale = true; task = cancel_task a.task }) s.active)

replace_first-not-is_empty :
    (e : Entry) (queue : List Entry)
    → (count (is_replaced e.job) queue == 0) ≡ false
    → is_empty (replace_first e queue) ≡ false
unfolding replace_first
replace_first-not-is_empty e [] h = cc
replace_first-not-is_empty e (x ∷ queue) h = ground arith

-- A queue with the new entry is not empty.
pub enqueue-not-is_empty : (e : Entry) (queue : List Entry) → is_empty (enqueue e queue) ≡ false
unfolding enqueue
enqueue-not-is_empty e [] = refl
enqueue-not-is_empty e (x ∷ queue) = ground (arith, replace_first-not-is_empty e (x ∷ queue))

pub cancel_current-IsTracked :
    (sid k : ℕ) (s : Scheduler) → IsTracked s k → IsTracked (cancel_current sid s) k
unfolding cancel_current
cancel_current-IsTracked sid k s t = elim (Option-cases (get sid s.active)) [
  | inl e ↦ rw (e, cancel_current) t
  | inr (a, e) ↦ rw (e, cancel_current) (cancel_active-IsTracked sid k a s e t)
]

pub forget-IsTracked :
    (sid k : ℕ) (s : Scheduler)
    → IsTracked s k
    → IsTracked (forget_ready sid (record s { pending = pop sid s.pending })) k
unfolding forget_ready queue_of
forget-IsTracked sid k s t = ground (
  arith,
  has-pop sid k s.pending,
  get_or_else-pop sid k [] s.pending,
  contains-remove sid k s.ready,
  contains-remove sid k s.ready_set,
)

-- A queue may be put in place of another one that is there.
pub requeue-IsTracked :
    (sid k : ℕ) (q : List Entry) (s : Scheduler)
    → is_empty q ≡ false
    → has sid s.pending ≡ true
    → IsTracked s k
    → IsTracked (record s { pending = put sid q s.pending }) k
unfolding queue_of
requeue-IsTracked sid k q s some_left there t =
    ground (arith, has-put sid k q s.pending, get_or_else-put sid k q [] s.pending)

-- `cancel_session` keeps the bookkeeping of every session.
pub cancel_session-IsTracked :
    (sid k : ℕ) (s : Scheduler) → IsTracked s k → IsTracked (cancel_session sid s) k
unfolding cancel_session
cancel_session-IsTracked sid k s t = cancel_current-IsTracked sid k _ (forget-IsTracked sid k s t)

prune-IsTracked :
    (sid k : ℕ) (ids : List ℕ) (s : Scheduler) → IsTracked s k → IsTracked (prune sid ids s) k
unfolding prune has
prune-IsTracked sid k ids s t = elim (Option-cases (get sid s.pending)) [
  | inl e ↦ rw (e, prune) t
  | inr (q, e) ↦ elim (Bool-cases (is_empty (drop_segments ids q))) [
    | inl b ↦ rw (e, prune) (rw b (forget-IsTracked sid k s t))
    | inr b ↦
        rw (e, prune) (rw b (requeue-IsTracked sid k (drop_segments ids q) s b (rw (e, has)) t))
  ]
]

cancel_segments-IsTracked :
    (sid k : ℕ) (ids : List ℕ) (s : Scheduler)
    → IsTracked s k
    → IsTracked (cancel_segments sid ids s) k
unfolding cancel_segments
cancel_segments-IsTracked sid k ids s t = elim (Option-cases (get sid s.active)) [
  | inl e ↦ rw (e, cancel_segments) t
  | inr (a, e) ↦ elim (Bool-cases (contains a.entry.job.segment_id ids)) [
    | inl b ↦ rw (e, cancel_segments) (rw b (cancel_active-IsTracked sid k a s e t))
    | inr b ↦ rw (e, cancel_segments) (rw b t)
  ]
]

pub invalidate_done :
    (sid : ℕ) (ids : List ℕ) (s s' : Scheduler)
    → invalidate sid ids s ≡ some s'
    → cancel_segments sid ids (prune sid ids s) ≡ s'
unfolding invalidate
invalidate_done sid ids s s' e = ground arith

pub invalidate-IsTracked :
    (sid k : ℕ) (ids : List ℕ) (s s' : Scheduler)
    → IsTracked s k
    → invalidate sid ids s ≡ some s'
    → IsTracked s' k
unfolding invalidate
invalidate-IsTracked sid k ids s s' t e =
    ground
      (arith, cancel_segments-IsTracked sid k ids (prune sid ids s) (prune-IsTracked sid k ids s t))
