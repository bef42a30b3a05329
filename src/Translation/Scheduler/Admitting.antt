-- ===== src/Translation/Scheduler/Admitting.antt =====
-- `submit` of app/translation/scheduler.py and the limits.
use my_vote_server.Base.{
  ℕ, ◌+◌, ◌≤◌, ◌≡◌, refl, ap, false, Option, none, some, arith, length, count-le, get, put, total,
  total-pop-le,
}
use my_vote_server.Translation.Job.{TranslationJob}
use my_vote_server.Translation.Scheduler.{
  Entry, Active, Scheduler, record_metric, queue_of, mark_ready, cancel_active, is_replaced,
  enqueue, supersede, note_coalesced, store_queue, admit, is_full,
}
use my_vote_server.Translation.Scheduler.Invariant.{IsTracked}
use my_vote_server.Translation.Scheduler.Admission.{store_queue-Stored}
use my_vote_server.Translation.Scheduler.Queueing.{length-enqueue, All-enqueue}
use my_vote_server.Translation.Scheduler.Bounds.{
  OwnedBy, IsBounded, SameRest, SameRest-IsBounded, requeue-IsBounded, mark_ready-IsBounded,
}
use my_vote_server.Translation.Scheduler.Running.{
  IsRunning, same_active-IsRunning, supersede-IsRunning,
}

-- A job that is not refused for want of room fits, with what it replaces taken away.
not_full_fits :
    (entry : Entry) (s : Scheduler)
    → is_full entry.job s ≡ false
    → let queue = queue_of entry.job.session_id s in
      (total s.pending + length (enqueue entry queue) ≤ s.max_pending + length queue)
      × (length (enqueue entry queue) ≤ s.max_pending_per_session)
unfolding is_full queue_of
not_full_fits entry s room =
    let queue = queue_of entry.job.session_id s in
    ground (
      arith,
      length-enqueue entry queue,
      count-le (is_replaced entry.job) queue,
      total-pop-le entry.job.session_id s.pending,
    )

store_queue-IsBounded :
    (entry : Entry) (s : Scheduler)
    → is_full entry.job s ≡ false
    → IsBounded s
    → IsBounded (store_queue entry s)
unfolding store_queue note_coalesced record_metric
store_queue-IsBounded entry s room b =
    let sid = entry.job.session_id in
    let queue = queue_of sid s in
    let (fits, fits_each) = not_full_fits entry s room in
    let stored = record s { pending = put sid (enqueue entry queue) s.pending } in
    SameRest-IsBounded stored _ (ground arith) (
      requeue-IsBounded sid (enqueue entry queue) s fits fits_each
        (All-enqueue (OwnedBy sid) entry queue refl (b.owned sid)) b)

pub supersede-SameRest :
    (job : TranslationJob) (o : Option Active) (s : Scheduler) → SameRest s (supersede job o s)
unfolding supersede cancel_active record_metric
supersede-SameRest job none s = (refl, refl, refl, refl, refl, refl)
supersede-SameRest job (some a) s = ground arith

pub admit-IsBounded :
    (entry : Entry) (s : Scheduler)
    → is_full entry.job s ≡ false
    → IsTracked s entry.job.session_id
    → IsBounded s
    → IsBounded (admit entry s)
unfolding admit record_metric
admit-IsBounded entry s room t b =
    let sid = entry.job.session_id in
    let o = get sid s.active in
    let s₁ = store_queue entry s in
    let s₂ = supersede entry.job o s₁ in
    let rest = supersede-SameRest entry.job o s₁ in
    let (pending, active, ready, ready_set, closing) = store_queue-Stored entry s in
    SameRest-IsBounded (mark_ready sid s₂) _ (refl, refl, refl, refl, refl, refl)
      (mark_ready-IsBounded sid s₂ (cc (t.mirrored, rest.1, rest.2, ready, ready_set))
        (SameRest-IsBounded s₁ s₂ rest (store_queue-IsBounded entry s room b)))

pub store_queue_active :
    (entry : Entry) (s : Scheduler)
    → ((store_queue entry s).active ≡ s.active)
      × ((store_queue entry s).worker_count ≡ s.worker_count)
unfolding store_queue note_coalesced record_metric
store_queue_active entry s = ground arith

pub mark_ready_active :
    (sid : ℕ) (s : Scheduler)
    → ((mark_ready sid s).active ≡ s.active) × ((mark_ready sid s).worker_count ≡ s.worker_count)
unfolding mark_ready
mark_ready_active sid s = ground arith

pub mark_ready-IsRunning : (sid : ℕ) (s : Scheduler) → IsRunning s → IsRunning (mark_ready sid s)
mark_ready-IsRunning sid s r =
    let (active, workers) = mark_ready_active sid s in
    same_active-IsRunning s (mark_ready sid s) active r

pub admit-IsRunning : (entry : Entry) (s : Scheduler) → IsRunning s → IsRunning (admit entry s)
unfolding admit record_metric
admit-IsRunning entry s r =
    let sid = entry.job.session_id in
    let o = get sid s.active in
    let s₁ = store_queue entry s in
    let (active, workers) = store_queue_active entry s in
    let s₂ = supersede entry.job o s₁ in
    same_active-IsRunning (mark_ready sid s₂) _ refl (
      mark_ready-IsRunning sid s₂ (
        supersede-IsRunning entry.job o s₁ (ap (get sid) active)
          (same_active-IsRunning s s₁ active r)))
