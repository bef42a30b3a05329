-- ===== src/Translation/Scheduler/Admission.antt =====
-- `submit` of app/translation/scheduler.py and the bookkeeping.
use my_vote_server.Base.{
  ℕ, ◌≡◌, refl, ap, ◌∙◌, true, false, Option, none, some, List, [], arith, ◌==◌, if◌then◌else◌,
  ==_refl, get_or_else, get, put, has, get-put, has-put, get_or_else-put,
}
use my_vote_server.Translation.Job.{TranslationJob}
use my_vote_server.Translation.Scheduler.{
  Metric, Entry, Active, Scheduler, record_metric, queue_of, mark_ready, cancel_task, cancel_active,
  enqueue, supersede, note_coalesced, store_queue, admit,
}
use my_vote_server.Translation.Scheduler.Invariant.{
  IsTracked, mark_ready-IsTracked, enqueue-not-is_empty,
}

-- What `supersede` leaves alone.
abbrev pub Settled : Scheduler → Scheduler → Type 0
Settled s s' =
    ((k : ℕ) → has k s'.active ≡ has k s.active)
    × (s'.pending ≡ s.pending)
    × (s'.ready ≡ s.ready)
    × (s'.ready_set ≡ s.ready_set)
    × (s'.closing ≡ s.closing)

supersede_active_keeps :
    (job : TranslationJob) (a : Active) (s : Scheduler)
    → get job.session_id s.active ≡ some a
    → Settled s (supersede job (some a) s)
unfolding supersede cancel_active has
supersede_active_keeps job a s e = (
  (λ k. ground (
    arith,
    get-put job.session_id k (record a { stale = true; task = cancel_task a.task }) s.active,
  )),
  ground arith,
  ground arith,
  ground arith,
  ground arith,
)

pub supersede_keeps :
    (job : TranslationJob) (o : Option Active) (s : Scheduler)
    → get job.session_id s.active ≡ o
    → Settled s (supersede job o s)
unfolding supersede
supersede_keeps job none s e = ((λ k. refl), refl, refl, refl, refl)
supersede_keeps job (some a) s e = supersede_active_keeps job a s e

-- What storing the queue leaves alone, and what it changes.
abbrev pub Stored : Entry → Scheduler → Scheduler → Type 0
Stored entry s s' =
    (s'.pending
      ≡ put entry.job.session_id (enqueue entry (queue_of entry.job.session_id s)) s.pending)
    × (s'.active ≡ s.active)
    × (s'.ready ≡ s.ready)
    × (s'.ready_set ≡ s.ready_set)
    × (s'.closing ≡ s.closing)

pub store_queue-Stored : (entry : Entry) (s : Scheduler) → Stored entry s (store_queue entry s)
unfolding store_queue note_coalesced record_metric
store_queue-Stored entry s = ground arith

pub metric-IsTracked :
    (m : Metric) (k : ℕ) (s : Scheduler) → IsTracked s k → IsTracked (record_metric m s) k
unfolding record_metric queue_of
metric-IsTracked m k s t = ground arith

-- The facts about the stored queue, seen from session `k`.
module _ (entry : Entry) (k : ℕ) (s s' : Scheduler) (t : IsTracked s k) where
  stored-listing :
      s.closing ≡ false
      → s'.pending
        ≡ put entry.job.session_id (enqueue entry (queue_of entry.job.session_id s)) s.pending
      → has k s'.active ≡ has k s.active
      → s'.ready ≡ s.ready
      → s'.ready_set ≡ s.ready_set
      → s'.closing ≡ s.closing
      → IsTracked s entry.job.session_id
      → has entry.job.session_id s'.active ≡ has entry.job.session_id s.active
      → IsTracked (mark_ready entry.job.session_id s') k
  unfolding queue_of
  stored-listing open_now pending active ready ready_set closing own own_active =
      mark_ready-IsTracked entry.job.session_id k s'
        (ground (arith, laws.0, laws.1, enqueue-not-is_empty entry queue)) (ground arith)
        (ground arith) (ground (arith, queued)) (ground (arith, laws.0))
    where
      queue : List Entry
      queue = queue_of entry.job.session_id s

      new : List Entry
      new = enqueue entry queue

      laws :
          (has k s'.pending ≡ (if entry.job.session_id == k then true else has k s.pending))
          × (get_or_else (get k s'.pending) []
              ≡ (if entry.job.session_id == k then new else get_or_else (get k s.pending) []))
      laws = (
        rw pending (has-put entry.job.session_id k new s.pending),
        rw pending (get_or_else-put entry.job.session_id k new [] s.pending),
      )

      queued : has entry.job.session_id s'.pending ≡ true
      queued = rw pending (
          rw (has-put entry.job.session_id entry.job.session_id new s.pending)
            (rw (==_refl entry.job.session_id)))

pub admit-IsTracked :
    (entry : Entry) (k : ℕ) (s : Scheduler)
    → s.closing ≡ false
    → ((j : ℕ) → IsTracked s j)
    → IsTracked (admit entry s) k
unfolding admit
admit-IsTracked entry k s open_now t =
    let sid = entry.job.session_id in
    let (pending, active, ready, ready_set, closing) = store_queue-Stored entry s in
    let o = get sid s.active in
    let s₁ = store_queue entry s in
    let (active', pending', ready', ready_set', closing') =
      supersede_keeps entry.job o s₁ (ap (get sid) active) in
    metric-IsTracked _ k _ (
      stored-listing entry k s _ (t k) open_now (pending' ∙ pending) (active' k ∙ ap (has k) active)
        (ready' ∙ ready) (ready_set' ∙ ready_set) (closing' ∙ closing) (t sid)
        (active' sid ∙ ap (has sid) active))
