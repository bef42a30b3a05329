-- ===== src/Translation/Scheduler.antt =====
-- app/translation/scheduler.py. Each operation below is the body that runs while the condition's
-- lock is held, so it is one atomic step; `await` is where another step can come between.
pub mod Invariant
pub mod Admission
pub mod Work
pub mod Queueing
pub mod Bounds
pub mod Running
pub mod Closing
pub mod Admitting
pub mod Taking
pub mod Steps
pub mod Valid
pub mod Reachable
pub mod Keeping
pub mod Pool
pub mod Submission
pub mod Attempts
pub mod Histories
mod Samples
use my_vote_server.Base.{
  ℕ, suc, ◌+◌, ◌-◌, Bool, true, false, not, ◌&&◌, ◌||◌, Option, none, some, List, [], ◌∷◌, ◌++◌,
  ltb, leb, ◌==◌, if◌then◌else◌, get_or_else, length, is_empty, any, filter, count, contains,
  remove, Dict, get, put, pop, has, keys, total,
}
use my_vote_server.Translation.Job.{TranslationJob, same_segment}

-- The names that `record_metric` is called with, and the values that go with some of them.
pub data Metric : Type 0 where
  translation_cancelled translation_queue_rejected translation_submitted : Metric
  translation_partial_coalesced : ℕ → Metric
  translation_queue_wait translation_stale_discarded translation_latency : Metric
  translation_failed translation_completed translation_callback_failed : Metric

-- `callback` names the coroutine function that is to be awaited with the result.
pub record Entry : Type 0 where
  pub job : TranslationJob
  pub callback : ℕ

-- The task of an active entry: not created yet, running, asked to cancel, or done.
pub data Task : Type 0 where
  absent running cancelling done : Task

-- `ident` tells one object from another, as `is` does.
pub record Active : Type 0 where
  pub ident : ℕ
  pub entry : Entry
  pub task : Task
  pub stale : Bool

pub record Scheduler : Type 0 where
  pub worker_count : ℕ
  pub max_pending : ℕ
  pub max_pending_per_session : ℕ
  pub pending : Dict (List Entry)
  pub ready : List ℕ
  pub ready_set : List ℕ
  pub active : Dict Active
  pub next_ident : ℕ
  pub started : Bool
  pub closing : Bool
  pub metrics : List Metric

pub data Error : Type 0 where
  scheduler_closed stale_revision queue_full : Error

pub data Outcome : Type 0 where
  accepted : Outcome
  refused : Error → Outcome

-- `__init__`; `none` is its ValueError.
pub init : ℕ → ℕ → ℕ → Option Scheduler
init workers max_pending max_pending_per_session =
    if ltb workers 1 || ltb max_pending 1 || ltb max_pending_per_session 1 || ltb 64 workers
    then none
    else some (record {
      worker_count = workers;
      max_pending = max_pending;
      max_pending_per_session = max_pending_per_session;
      pending = [];
      ready = [];
      ready_set = [];
      active = [];
      next_ident = 0;
      started = false;
      closing = false;
      metrics = [];
    })

pub record_metric : Metric → Scheduler → Scheduler
record_metric m s = record s { metrics = m ∷ s.metrics }

-- `self._pending.get(session_id, ())`.
pub queue_of : ℕ → Scheduler → List Entry
queue_of sid s = get_or_else (get sid s.pending) []

-- `start`: the scheduler counts its workers; `none` is SchedulerClosedError.
pub start : Scheduler → Option Scheduler
start s = if s.closing then none else some (record s { started = true })

pub mark_ready : ℕ → Scheduler → Scheduler
unfolding queue_of
mark_ready sid s =
    if not (is_empty (queue_of sid s))
      && not (has sid s.active)
      && not (contains sid s.ready_set)
      && not s.closing
    then record s { ready = s.ready ++ sid ∷ []; ready_set = sid ∷ s.ready_set }
    else s

pub forget_ready : ℕ → Scheduler → Scheduler
forget_ready sid s = record s { ready = remove sid s.ready; ready_set = remove sid s.ready_set }

-- `task.cancel()` on a task that is there and not done.
pub cancel_task : Task → Task
cancel_task running = cancelling
cancel_task absent = absent
cancel_task cancelling = cancelling
cancel_task done = done

-- `_cancel_active` on the object that stands under its session in `_active`.
pub cancel_active : ℕ → Active → Scheduler → Scheduler
unfolding record_metric cancel_task
cancel_active sid a s =
    if a.stale
    then s
    else record_metric translation_cancelled (record s {
      active = put sid (record a { stale = true; task = cancel_task a.task }) s.active;
    })

-- The peers of a new job: the queued entries, and the active one unless it is stale.
pub peers : List Entry → Option Active → List Entry
peers queue none = queue
peers queue (some a) = if a.stale then queue else queue ++ a.entry ∷ []

pub is_newer_peer : TranslationJob → Entry → Bool
is_newer_peer job e = same_segment e.job job && ltb job.source_revision e.job.source_revision

-- A queued partial that the new job replaces.
pub is_replaced : TranslationJob → Entry → Bool
is_replaced job e =
    not e.job.final && same_segment e.job job && leb e.job.source_revision job.source_revision

-- The new queue: the entry stands where the first replaced one stood, the others are dropped.
pub replace_first : Entry → List Entry → List Entry
replace_first entry [] = []
replace_first entry (e ∷ queue) =
    let kept = filter (λ x. not (is_replaced entry.job x)) queue in
    let rest = replace_first entry queue in
    if is_replaced entry.job e then entry ∷ kept else e ∷ rest

pub enqueue : Entry → List Entry → List Entry
unfolding replace_first
enqueue entry queue =
    if count (is_replaced entry.job) queue == 0
    then queue ++ entry ∷ []
    else replace_first entry queue

-- Whether the new job makes the active attempt obsolete.
pub supersedes : TranslationJob → Active → Bool
supersedes job a = is_replaced job a.entry

pub supersede : TranslationJob → Option Active → Scheduler → Scheduler
unfolding cancel_active supersedes
supersede job none s = s
supersede job (some a) s = if supersedes job a then cancel_active job.session_id a s else s

pub note_coalesced : ℕ → Scheduler → Scheduler
unfolding record_metric
note_coalesced n s = if n == 0 then s else record_metric (translation_partial_coalesced n) s

-- The new queue is stored, and what was coalesced is counted.
pub store_queue : Entry → Scheduler → Scheduler
unfolding note_coalesced queue_of enqueue
store_queue entry s =
    let queue = queue_of entry.job.session_id s in
    note_coalesced (count (is_replaced entry.job) queue)
      (record s { pending = put entry.job.session_id (enqueue entry queue) s.pending })

-- The rest of `submit` once the job is admitted.
pub admit : Entry → Scheduler → Scheduler
unfolding store_queue supersede mark_ready record_metric
admit entry s =
    let settled = supersede entry.job (get entry.job.session_id s.active) (store_queue entry s) in
    record_metric translation_submitted (mark_ready entry.job.session_id settled)

pub has_newer_peer : TranslationJob → Scheduler → Bool
unfolding queue_of peers
has_newer_peer job s =
    any (is_newer_peer job) (peers (queue_of job.session_id s) (get job.session_id s.active))

pub is_full : TranslationJob → Scheduler → Bool
unfolding queue_of
is_full job s =
    let queue = queue_of job.session_id s in
    let replaced = count (is_replaced job) queue in
    ltb s.max_pending (total s.pending - replaced + 1)
    || ltb s.max_pending_per_session (length queue - replaced + 1)

-- `submit`, from the start of the workers to the notification of the condition.
pub submit : TranslationJob → ℕ → Scheduler → Outcome × Scheduler
unfolding record_metric
submit job callback s =
    let s' = record s { started = true } in
    if s.closing
    then (refused scheduler_closed, s)
    else if has_newer_peer job s
    then (refused stale_revision, s')
    else if is_full job s
    then (refused queue_full, record_metric translation_queue_rejected s')
    else (accepted, admit (record { job = job; callback = callback }) s')

-- `if session_id in self._active: self._cancel_active(self._active[session_id])`.
pub cancel_current : ℕ → Scheduler → Scheduler
unfolding cancel_active
cancel_current sid s = elim (get sid s.active) [ none ↦ s | some a ↦ cancel_active sid a s ]

-- `cancel_session`.
pub cancel_session : ℕ → Scheduler → Scheduler
unfolding forget_ready cancel_current
cancel_session sid s =
    cancel_current sid (forget_ready sid (record s { pending = pop sid s.pending }))

-- The queue of `invalidate` without the entries of the given segments.
pub drop_segments : List ℕ → List Entry → List Entry
drop_segments ids = filter (λ e. not (contains e.job.segment_id ids))

pub prune : ℕ → List ℕ → Scheduler → Scheduler
unfolding forget_ready drop_segments
prune sid ids s = elim (get sid s.pending) [
  | none ↦ s
  | some queue ↦
      let remaining = drop_segments ids queue in
      if is_empty remaining
      then forget_ready sid (record s { pending = pop sid s.pending })
      else record s { pending = put sid remaining s.pending }
]

-- The active entry of the session, if its segment is one of the given ones, becomes stale.
pub cancel_segments : ℕ → List ℕ → Scheduler → Scheduler
unfolding cancel_active
cancel_segments sid ids s = elim (get sid s.active) [
  | none ↦ s
  | some a ↦ if contains a.entry.job.segment_id ids then cancel_active sid a s else s
]

-- `invalidate`; `none` is its ValueError. The empty identifier is the number 0.
pub invalidate : ℕ → List ℕ → Scheduler → Option Scheduler
unfolding prune cancel_segments
invalidate sid ids s =
    if contains 0 ids then none else some (cancel_segments sid ids (prune sid ids s))

-- What a worker gets from `_take`: it ends, it waits on the condition, or it has work.
pub data Taken : Type 0 where
  ends waits : Taken
  takes : ℕ → Active → Taken

-- The first entry of a queue becomes the active one of its session.
pub activate : ℕ → Entry → List Entry → Scheduler → Taken × Scheduler
activate sid e rest s =
    let a : Active = record { ident = s.next_ident; entry = e; task = absent; stale = false } in
    (
      takes sid a,
      record s {
        pending = if is_empty rest then pop sid s.pending else put sid rest s.pending;
        active = put sid a s.active;
        next_ident = suc s.next_ident;
      },
    )

pub take_from : List ℕ → Scheduler → Taken × Scheduler
unfolding activate queue_of
take_from [] s = (waits, record s { ready = [] })
take_from (sid ∷ ready) s =
    let s' = record s { ready = ready; ready_set = remove sid s.ready_set } in
    let skip = take_from ready s' in
    elim (queue_of sid s) [
      | [] ↦ skip
      | e ∷ rest ↦ if has sid s.active then skip else activate sid e rest s'
    ]

-- `_take`, from one wait on the condition to the next.
pub take : Scheduler → Taken × Scheduler
unfolding take_from
take s = if s.closing then (ends, s) else take_from s.ready s

-- The first half of `_execute`, up to the wait for the backend.
pub execute_begin : ℕ → Active → Scheduler → Scheduler
unfolding record_metric
execute_begin sid a s =
    if a.stale
    then s
    else record_metric translation_queue_wait
        (record s { active = put sid (record a { task = running }) s.active })

-- What the backend's task ended with: a result, or the code of a TranslationError.
pub data Attempt : Type 0 where
  returned : ℕ → Attempt
  raised : ℕ → Attempt

pub record Delivery : Type 0 where
  pub callback : ℕ
  pub job : TranslationJob
  pub attempt : Attempt

pub note_attempt : Attempt → Bool → Scheduler → Scheduler
unfolding record_metric
note_attempt (returned r) callback_fails s =
    let noted = record_metric translation_completed (record_metric translation_latency s) in
    if callback_fails then record_metric translation_callback_failed noted else noted
note_attempt (raised c) callback_fails s =
    let noted = record_metric translation_failed s in
    if callback_fails then record_metric translation_callback_failed noted else noted

-- The second half of `_execute`: the callback's call, if there is one, and the counters.
pub execute_end : ℕ → Active → Attempt → Bool → Scheduler → Option Delivery × Scheduler
unfolding record_metric note_attempt
execute_end sid a attempt callback_fails s =
    let s' = record s { active = put sid (record a { task = done }) s.active } in
    if a.stale || s.closing then (none, record_metric translation_stale_discarded s') else (
      some (record { callback = a.entry.callback; job = a.entry.job; attempt = attempt }),
      note_attempt attempt callback_fails s',
    )

-- The `finally` of `_worker`: `held` is the identity of the worker's own active entry.
pub is_held : ℕ → Option Active → Bool
is_held held none = false
is_held held (some a) = a.ident == held

pub finish : ℕ → ℕ → Scheduler → Scheduler
unfolding mark_ready is_held
finish sid held s =
    mark_ready sid
      (if is_held held (get sid s.active) then record s { active = pop sid s.active } else s)

-- `_cancel_active` on each value of `_active`, found under its key.
pub cancel_all : List ℕ → Scheduler → Scheduler
unfolding cancel_current
cancel_all [] s = s
cancel_all (sid ∷ sids) s = cancel_all sids (cancel_current sid s)

-- `close`, up to its wait for the workers.
pub close : Scheduler → Scheduler
unfolding cancel_all
close s =
    cancel_all (keys s.active)
      (record s { closing = true; pending = []; ready = []; ready_set = [] })
