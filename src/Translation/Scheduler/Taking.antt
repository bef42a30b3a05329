-- ===== src/Translation/Scheduler/Taking.antt =====
-- `_take` of app/translation/scheduler.py: what a worker gets, and the bookkeeping.
use my_vote_server.Base.{
  ℕ, ◌≡◌, refl, ap, subst, ◌∙◌, ◌≢◌, true, false, some, List, [], ◌∷◌, arith, if◌then◌else◌,
  ==_refl, is_empty, contains, remove, distinct, remove_absent, get, put, pop, has,
}
use my_vote_server.Translation.Scheduler.{
  Entry, Active, Scheduler, queue_of, ends, waits, takes, activate, take_from, take,
}
use my_vote_server.Translation.Scheduler.Invariant.{IsTracked}
use my_vote_server.Translation.Scheduler.Work.{activate-IsTracked}
use my_vote_server.Translation.Scheduler.Bounds.{
  IsBounded, SameQueues-IsBounded, SameRest-IsBounded, requeue-IsBounded, unqueue-IsBounded,
}

-- The scheduler once the first ready session is taken off the list.
abbrev pub without_head : ℕ → List ℕ → Scheduler → Scheduler
without_head sid ready s = record s { ready = ready; ready_set = remove sid s.ready_set }

-- The worker's step is the activation of the oldest entry of the session `sid`.
pub record TakesFrom (sid : ℕ) (ready : List ℕ) (s : Scheduler) : Type 0 where
  pub entry : Entry
  pub rest : List Entry
  pub queued : queue_of sid s ≡ entry ∷ rest
  pub idle : has sid s.active ≡ false
  pub result : take s ≡ activate sid entry rest (without_head sid ready s)

ready_head :
    (sid : ℕ) (ready : List ℕ) (s : Scheduler)
    → s.ready ≡ sid ∷ ready
    → IsTracked s sid
    → (has sid s.active ≡ false) × (is_empty (queue_of sid s) ≡ false)
ready_head sid ready s e t = ground (arith, ap (contains sid) e, ==_refl sid)

take_from_head :
    (sid : ℕ) (ready : List ℕ) (s : Scheduler) (q : List Entry)
    → queue_of sid s ≡ q
    → is_empty q ≡ false
    → has sid s.active ≡ false
    → (e : Entry) × (rest : List Entry) × (q ≡ e ∷ rest)
      × (take_from (sid ∷ ready) s ≡ activate sid e rest (without_head sid ready s))
unfolding take_from
take_from_head sid ready s [] e some_left idle = cc
take_from_head sid ready s (x ∷ rest) e some_left idle =
    (x, rest, refl, rw (e, take_from) (rw idle))

take_open :
    (s : Scheduler) (ready : List ℕ)
    → s.closing ≡ false
    → s.ready ≡ ready
    → take s ≡ take_from ready s
unfolding take
take_open s ready open_now e =
    ap (λ b. if b then (ends, s) else take_from s.ready s) open_now ∙ ap (λ l. take_from l s) e

pub take-TakesFrom :
    (sid : ℕ) (ready : List ℕ) (s : Scheduler)
    → s.closing ≡ false
    → s.ready ≡ sid ∷ ready
    → IsTracked s sid
    → TakesFrom sid ready s
take-TakesFrom sid ready s open_now e t =
    let (idle, some_left) = ready_head sid ready s e t in
    let (x, rest, q, taken) = take_from_head sid ready s (queue_of sid s) refl some_left idle in
    record {
      entry = x;
      rest = rest;
      queued = q;
      idle = idle;
      result = take_open s (sid ∷ ready) open_now e ∙ taken;
    }

-- What a worker comes back with, and what it leaves: it is handed the oldest entry of the session
-- `sid`, as a new attempt that becomes the session's active one; that entry leaves the queue, the
-- session leaves the ready list, and the other sessions keep their queues and active entries.
pub record IsServed (sid : ℕ) (ready : List ℕ) (s : Scheduler) : Type 0 where
  pub attempt : Active
  pub rest : List Entry
  pub fresh_ident : attempt.ident ≡ s.next_ident
  pub not_stale : attempt.stale ≡ false
  pub queued : queue_of sid s ≡ attempt.entry ∷ rest
  pub idle : has sid s.active ≡ false
  pub handed : (take s).0 ≡ takes sid attempt
  pub held : get sid (take s).1.active ≡ some attempt
  pub dequeued : queue_of sid (take s).1 ≡ rest
  pub listed : (take s).1.ready ≡ ready
  pub others :
      (k : ℕ)
      → k ≢ sid
      → (queue_of k (take s).1 ≡ queue_of k s) × (get k (take s).1.active ≡ get k s.active)

-- With nothing ready the worker waits, and nothing changes.
pub take_idle :
    (s : Scheduler) → s.closing ≡ false → s.ready ≡ [] → take s ≡ (waits, record s { ready = [] })
unfolding take_from
take_idle s open_now e = take_open s [] open_now e

-- After `close` the worker ends, and nothing changes.
pub take_closed : (s : Scheduler) → s.closing ≡ true → take s ≡ (ends, s)
unfolding take
take_closed s closed = rw closed

-- The list without its head is the list without that session.
head_removed :
    (sid : ℕ) (ready : List ℕ) (s : Scheduler)
    → s.ready ≡ sid ∷ ready
    → distinct s.ready ≡ true
    → (remove sid s.ready ≡ ready) × (distinct ready ≡ true)
head_removed sid ready s e once =
    let parts : (contains sid ready ≡ false) × (distinct ready ≡ true) =
      ground (arith, rw e at once) in
    (rw e (rw (==_refl sid) (remove_absent sid ready parts.0)), parts.1)

pub activated-IsTracked :
    (sid k : ℕ) (ready : List ℕ) (s : Scheduler)
    → s.ready ≡ sid ∷ ready
    → distinct s.ready ≡ true
    → IsTracked s k
    → (f : TakesFrom sid ready s)
    → IsTracked (activate sid f.entry f.rest (without_head sid ready s)).1 k
activated-IsTracked sid k ready s e once t f =
    subst (λ r. IsTracked (activate sid f.entry f.rest (without_head sid r s)).1 k)
      (head_removed sid ready s e once).0
      (activate-IsTracked sid k f.entry f.rest s f.queued f.idle t)

pub activated-IsBounded :
    (sid : ℕ) (ready : List ℕ) (s : Scheduler)
    → s.ready ≡ sid ∷ ready
    → IsBounded s
    → (f : TakesFrom sid ready s)
    → IsBounded (activate sid f.entry f.rest (without_head sid ready s)).1
unfolding activate queue_of
activated-IsBounded sid ready s e b f =
    let once = (head_removed sid ready s e b.listed_once).1 in
    let s₁ = without_head sid ready s in
    let b₁ = SameQueues-IsBounded s s₁ (refl, refl, refl) once b in
    let own = rw f.queued at (b.owned sid) in
    let few = rw f.queued at (b.within_session sid) in
    if_pending sid f.rest s₁ (unqueue-IsBounded sid s₁ b₁) (
      requeue-IsBounded sid f.rest s₁ (rw f.queued (omega (arith, b.within_total)))
        (omega (arith, few)) own.1 b₁)
  where
    if_pending :
        (sid : ℕ) (rest : List Entry) (s₁ : Scheduler)
        → IsBounded (record s₁ { pending = pop sid s₁.pending })
        → IsBounded (record s₁ { pending = put sid rest s₁.pending })
        → IsBounded (activate sid f.entry rest s₁).1
    if_pending sid [] s₁ emptied left =
        SameRest-IsBounded _ _ (refl, refl, refl, refl, refl, refl) emptied
    if_pending sid (x ∷ rest) s₁ emptied left =
        SameRest-IsBounded _ _ (refl, refl, refl, refl, refl, refl) left
