-- ===== src/Translation/Scheduler/Bounds.antt =====
-- The limits of app/translation/scheduler.py: how much is queued, for whom, and how often a
-- session is listed.
use my_vote_server.Base.{
  ℕ, ◌+◌, ◌≤◌, ◌≡◌, refl, subst, inl, inr, true, not, List, [], arith, ℕ_discrete, ==_refl, ==_ne,
  Bool-cases, Option-cases, get_or_else, length, is_empty, All, length-filter-le, All-filter,
  contains, remove, distinct, distinct-remove, distinct-snoc, get, put, pop, get_or_else-put,
  get_or_else-pop, total, total-put, total-pop-le,
}
use my_vote_server.Translation.Scheduler.{
  Entry, Active, Scheduler, queue_of, mark_ready, forget_ready, cancel_active, cancel_current,
  drop_segments, prune,
}

abbrev pub OwnedBy : ℕ → Entry → Type 0
OwnedBy k e = e.job.session_id ≡ k

pub record IsBounded (s : Scheduler) : Type 0 where
  pub within_total : total s.pending ≤ s.max_pending
  pub within_session : (k : ℕ) → length (queue_of k s) ≤ s.max_pending_per_session
  pub owned : (k : ℕ) → All (OwnedBy k) (queue_of k s)
  pub listed_once : distinct s.ready ≡ true

-- Two schedulers with the same queues and limits.
abbrev pub SameQueues : Scheduler → Scheduler → Type 0
SameQueues s s' =
    (s'.pending ≡ s.pending)
    × (s'.max_pending ≡ s.max_pending)
    × (s'.max_pending_per_session ≡ s.max_pending_per_session)

pub SameQueues-IsBounded :
    (s s' : Scheduler) → SameQueues s s' → distinct s'.ready ≡ true → IsBounded s → IsBounded s'
unfolding queue_of
SameQueues-IsBounded s s' (pending, most, most_each) once b = record {
  within_total = rw (pending, most) b.within_total;
  within_session = λ k. rw (pending, most_each) (b.within_session k);
  owned = λ k. rw pending (b.owned k);
  listed_once = once;
}

-- All but the active entries and the counters.
abbrev pub SameRest : Scheduler → Scheduler → Type 0
SameRest s s' =
    (s'.pending ≡ s.pending)
    × (s'.ready ≡ s.ready)
    × (s'.ready_set ≡ s.ready_set)
    × (s'.closing ≡ s.closing)
    × (s'.max_pending ≡ s.max_pending)
    × (s'.max_pending_per_session ≡ s.max_pending_per_session)

pub SameRest-IsBounded : (s s' : Scheduler) → SameRest s s' → IsBounded s → IsBounded s'
SameRest-IsBounded s s' (p, r, rs, c, m, ms) b =
    SameQueues-IsBounded s s' (p, m, ms) (rw r b.listed_once) b

-- A queue that is put in place of the one of its session.
pub requeue-IsBounded :
    (sid : ℕ) (queue : List Entry) (s : Scheduler)
    → total s.pending + length queue ≤ s.max_pending + length (queue_of sid s)
    → length queue ≤ s.max_pending_per_session
    → All (OwnedBy sid) queue
    → IsBounded s
    → IsBounded (record s { pending = put sid queue s.pending })
unfolding queue_of
requeue-IsBounded sid queue s fits fits_each own b = record {
  within_total = omega (arith, total-put sid queue s.pending);
  within_session =
      λ k. ground (arith, get_or_else-put sid k queue [] s.pending, b.within_session k);
  owned = λ k. elim (ℕ_discrete sid k) [
    | yes e ↦
        subst (λ j. All (OwnedBy j) (get_or_else (get j (put sid queue s.pending)) [])) e
          (rw (get_or_else-put sid sid queue [] s.pending, ==_refl sid) own)
    | no n ↦ rw (get_or_else-put sid k queue [] s.pending, ==_ne sid k n) (b.owned k)
  ];
  listed_once = b.listed_once;
}

pub unqueue-IsBounded :
    (sid : ℕ) (s : Scheduler) → IsBounded s → IsBounded (record s { pending = pop sid s.pending })
unfolding queue_of
unqueue-IsBounded sid s b = record {
  within_total = omega (arith, total-pop-le sid s.pending, b.within_total);
  within_session = λ k. ground (arith, get_or_else-pop sid k [] s.pending, b.within_session k);
  owned = λ k. elim (ℕ_discrete sid k) [
    | yes e ↦
        subst (λ j. All (OwnedBy j) (get_or_else (get j (pop sid s.pending)) [])) e
          (rw (get_or_else-pop sid sid [] s.pending, ==_refl sid) tt)
    | no n ↦ rw (get_or_else-pop sid k [] s.pending, ==_ne sid k n) (b.owned k)
  ];
  listed_once = b.listed_once;
}

pub mark_ready-SameQueues : (sid : ℕ) (s : Scheduler) → SameQueues s (mark_ready sid s)
unfolding mark_ready
mark_ready-SameQueues sid s = ground arith

pub mark_ready-IsBounded :
    (sid : ℕ) (s : Scheduler)
    → contains sid s.ready_set ≡ contains sid s.ready
    → IsBounded s
    → IsBounded (mark_ready sid s)
unfolding mark_ready
mark_ready-IsBounded sid s mirrored b =
    SameQueues-IsBounded s (mark_ready sid s) (mark_ready-SameQueues sid s)
      (ground (arith, b.listed_once, distinct-snoc sid s.ready)) b

pub forget-IsBounded :
    (sid : ℕ) (s : Scheduler)
    → IsBounded s
    → IsBounded (forget_ready sid (record s { pending = pop sid s.pending }))
unfolding forget_ready
forget-IsBounded sid s b =
    let popped = record s { pending = pop sid s.pending } in
    SameQueues-IsBounded popped
      (record popped { ready = remove sid s.ready; ready_set = remove sid s.ready_set })
      (refl, refl, refl) (distinct-remove sid s.ready b.listed_once) (unqueue-IsBounded sid s b)

pub cancel_active-IsBounded :
    (sid : ℕ) (a : Active) (s : Scheduler) → IsBounded s → IsBounded (cancel_active sid a s)
unfolding cancel_active
cancel_active-IsBounded sid a s b =
    SameQueues-IsBounded s (cancel_active sid a s) (ground arith) (ground (arith, b.listed_once)) b

pub cancel_current-IsBounded :
    (sid : ℕ) (s : Scheduler) → IsBounded s → IsBounded (cancel_current sid s)
unfolding cancel_current
cancel_current-IsBounded sid s b = elim (Option-cases (get sid s.active)) [
  | inl e ↦ rw (e, cancel_current) b
  | inr (a, e) ↦ rw (e, cancel_current) (cancel_active-IsBounded sid a s b)
]

pub prune-IsBounded :
    (sid : ℕ) (ids : List ℕ) (s : Scheduler) → IsBounded s → IsBounded (prune sid ids s)
unfolding prune drop_segments queue_of
prune-IsBounded sid ids s b = elim (Option-cases (get sid s.pending)) [
  | inl e ↦ rw (e, prune) b
  | inr (q, e) ↦
      let d = λ (x : Entry). not (contains x.job.segment_id ids) in
      elim (Bool-cases (is_empty (drop_segments ids q))) [
        | inl x ↦ rw (e, prune) (rw x (forget-IsBounded sid s b))
        | inr x ↦
            rw (e, prune)
              (rw x (
                requeue-IsBounded sid (drop_segments ids q) s
                  (rw e (omega (arith, length-filter-le d q, b.within_total)))
                  (omega (arith, length-filter-le d q, rw e at (b.within_session sid)))
                  (All-filter (OwnedBy sid) d q (rw e at (b.owned sid))) b))
      ]
]
