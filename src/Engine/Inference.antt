-- ===== src/Engine/Inference.antt =====
-- MyVote-Speaker-Update/src/myvote_engine/inference_scheduler.py, AsrInferenceScheduler. Its code
-- runs on one event loop, so each piece between two awaits is one step. A call is the number of its
-- future; clocks count ticks; what a native call answers is a number.
pub mod Bookkeeping
pub mod Picking
pub mod Histories
pub mod Choosing
mod Samples
use my_vote_server.Base.{
  ℕ, ◌+◌, ◌-◌, ◌*◌, Bool, true, false, not, ◌&&◌, ◌||◌, Option, none, some, List, [], ◌∷◌, ◌++◌,
  ltb, leb, if◌then◌else◌, length, filter, count, Dict, put, has,
}

pub data Outcome : Type 0 where
  result raised : ℕ → Outcome
  cancelled expired : Outcome

pub record Call : Type 0 where
  pub future : ℕ
  pub queued_at : ℕ

-- `futures` has those that are done; `worker` is whether the loop's task is there.
pub record AsrScheduler : Type 0 where
  pub secondary_max_wait : ℕ
  pub max_primary_pending : ℕ
  pub max_secondary_pending : ℕ
  pub primary : List Call
  pub secondary : List Call
  pub futures : Dict Outcome
  pub next_future : ℕ
  pub changed : Bool
  pub worker : Bool
  pub active : Option Call
  pub closed : Bool
  pub primary_calls : ℕ
  pub secondary_calls : ℕ
  pub secondary_admission_timeouts : ℕ
  pub cancelled_queued : ℕ

unfoldable pub is_capacity : ℕ → Bool
is_capacity limit = leb 1 limit && leb limit 64

-- `__init__`; none is its ValueError. A second is `ticks`.
unfoldable pub make : ℕ → ℕ → ℕ → ℕ → Option AsrScheduler
unfolding is_capacity
make ticks max_wait max_primary max_secondary =
    if not (ltb 0 max_wait && leb max_wait (120 * ticks))
      || not (is_capacity max_primary && is_capacity max_secondary)
    then none
    else some (record {
      secondary_max_wait = max_wait;
      max_primary_pending = max_primary;
      max_secondary_pending = max_secondary;
      primary = [];
      secondary = [];
      futures = [];
      next_future = 0;
      changed = false;
      worker = false;
      active = none;
      closed = false;
      primary_calls = 0;
      secondary_calls = 0;
      secondary_admission_timeouts = 0;
      cancelled_queued = 0;
    })

unfoldable pub is_done : Dict Outcome → Call → Bool
unfolding has
is_done futures c = has c.future futures

-- `primary_pending` and `notify_admission_changed`.
unfoldable pub primary_pending : AsrScheduler → ℕ
unfolding is_done
primary_pending s = count (λ c. not (is_done s.futures c)) s.primary

unfoldable pub notify : AsrScheduler → AsrScheduler
notify s = record s { changed = true }

-- A future is done once.
unfoldable pub settle : ℕ → Outcome → Dict Outcome → Dict Outcome
unfolding has put
settle k o futures = if has k futures then futures else put k o futures

pub data Priority : Type 0 where
  first second : Priority

unfoldable pub queue_of : Priority → AsrScheduler → List Call
queue_of first s = s.primary
queue_of second s = s.secondary

unfoldable pub limit_of : Priority → AsrScheduler → ℕ
limit_of first s = s.max_primary_pending
limit_of second s = s.max_secondary_pending

unfoldable pub set_queue : Priority → List Call → AsrScheduler → AsrScheduler
set_queue first q s = record s { primary = q }
set_queue second q s = record s { secondary = q }

pub data Answer : Type 0 where
  accepted : ℕ → Answer
  is_closed is_full : Answer

unfoldable pub enqueue : Priority → List Call → ℕ → AsrScheduler → AsrScheduler
unfolding set_queue
enqueue p q now s =
    let filled = set_queue p (q ++ record { future = s.next_future; queued_at = now } ∷ []) s in
    record filled { next_future = s.next_future + 1; changed = true; worker = true }

-- `_submit` up to its await. A queue that is full has lost its done calls.
unfoldable pub submit : Priority → ℕ → AsrScheduler → Answer × AsrScheduler
unfolding is_done queue_of limit_of set_queue enqueue
submit p now s =
    let live = filter (λ c. not (is_done s.futures c)) (queue_of p s) in
    if s.closed
    then (is_closed, s)
    else if leb (limit_of p s) (length live)
    then (is_full, set_queue p live s)
    else (accepted s.next_future, enqueue p live now s)

-- The cancellation of the caller that awaits a future.
unfoldable pub cancel : ℕ → AsrScheduler → AsrScheduler
unfolding settle
cancel k s = record s { futures = settle k cancelled s.futures; changed = true }

-- The done calls at the head of the primary queue, which `_next` drops.
unfoldable pub prune_primary : List Call → AsrScheduler → AsrScheduler
unfolding is_done
prune_primary [] s = record s { primary = [] }
prune_primary (c ∷ cs) s =
    let rest = prune_primary cs (record s { cancelled_queued = s.cancelled_queued + 1 }) in
    if is_done s.futures c then rest else record s { primary = c ∷ cs }

unfoldable pub prune_secondary : List Call → AsrScheduler → AsrScheduler
unfolding is_done
prune_secondary [] s = record s { secondary = [] }
prune_secondary (c ∷ cs) s =
    let rest = prune_secondary cs (record s { cancelled_queued = s.cancelled_queued + 1 }) in
    if is_done s.futures c then rest else record s { secondary = c ∷ cs }

pub data Choice : Type 0 where
  starts : Priority → Call → Choice
  waits finishes : Choice

-- What secondary_admission answers, or that it raises.
pub data Admission : Type 0 where
  admits refuses : Admission
  raises : ℕ → Admission

-- The checks of `_next` on the secondary calls, in order: `now c` is the clock, which never
-- runs backwards, and `admission c` the answer of secondary_admission when c is at the head.
unfoldable pub next_secondary :
    (Call → ℕ) → (Call → Admission) → List Call → AsrScheduler → Choice × AsrScheduler
unfolding is_done settle
next_secondary now admission [] s = (finishes, record s { secondary = [] })
next_secondary now admission (c ∷ cs) s =
    let dropped =
      next_secondary now admission cs (record s { cancelled_queued = s.cancelled_queued + 1 }) in
    let timed_out = next_secondary now admission cs (record s {
      secondary_admission_timeouts = s.secondary_admission_timeouts + 1;
      futures = settle c.future expired s.futures;
    }) in
    let failed = λ (e : ℕ).
      next_secondary now admission cs
        (record s { futures = settle c.future (raised e) s.futures }) in
    if is_done s.futures c
    then dropped
    else if leb s.secondary_max_wait (now c - c.queued_at)
    then timed_out
    else elim (admission c) [
      | raises e ↦ failed e
      | admits ↦ (starts second c, record s { secondary = cs })
      | refuses ↦ (waits, record s { secondary = c ∷ cs; changed = false })
    ]

unfoldable pub choose_from :
    (Call → ℕ) → (Call → Admission) → List Call → AsrScheduler → Choice × AsrScheduler
unfolding prune_secondary next_secondary
choose_from now admission [] s = next_secondary now admission s.secondary s
choose_from now admission (c ∷ cs) s =
    (starts first c, prune_secondary s.secondary (record s { primary = cs }))

-- `_next` up to its return or its wait.
unfoldable pub choose : (Call → ℕ) → (Call → Admission) → AsrScheduler → Choice × AsrScheduler
unfolding prune_primary choose_from
choose now admission s =
    let pruned = prune_primary s.primary s in choose_from now admission pruned.primary pruned

-- What `_loop` does with the choice: it starts the native call, or ends.
unfoldable pub act : Choice → AsrScheduler → AsrScheduler
act (starts first c) s = record s { active = some c; primary_calls = s.primary_calls + 1 }
act (starts second c) s = record s { active = some c; secondary_calls = s.secondary_calls + 1 }
act waits s = s
act finishes s = record s { worker = false }

unfoldable pub run_next : (Call → ℕ) → (Call → Admission) → AsrScheduler → AsrScheduler
unfolding choose act
run_next now admission s = let r = choose now admission s in act r.0 r.1

-- The end of a native call, and the loop's next turn.
unfoldable pub complete :
    (Call → ℕ) → (Call → Admission) → Call → Outcome → AsrScheduler → AsrScheduler
unfolding settle run_next
complete now admission c o s =
    run_next now admission (record s { futures = settle c.future o s.futures; active = none })

unfoldable pub cancel_all : List Call → Dict Outcome → Dict Outcome
unfolding settle
cancel_all [] futures = futures
cancel_all (c ∷ cs) futures = cancel_all cs (settle c.future cancelled futures)

-- `close` up to its wait for the worker.
unfoldable pub close : AsrScheduler → AsrScheduler
unfolding cancel_all
close s = record s {
  closed = true;
  futures = cancel_all s.secondary (cancel_all s.primary s.futures);
  primary = [];
  secondary = [];
  changed = true;
}
