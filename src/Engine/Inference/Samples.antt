-- ===== src/Engine/Inference/Samples.antt =====
-- The theorems about MyVote-Speaker-Update/src/myvote_engine/inference_scheduler.py at small inputs.
use my_vote_server.Base.{◌≡◌, refl, false, none, some, [], get}
use my_vote_server.Engine.Inference.{
  AsrScheduler, is_capacity, make, is_done, first, second, queue_of, limit_of, set_queue, enqueue,
  submit, prune_primary, prune_secondary, starts, admits, choose_from, choose, run_next,
}
use my_vote_server.Engine.Inference.Bookkeeping.{IsValid}
use my_vote_server.Engine.Inference.Histories.{
  submits, turns, Reach, here, next, make-Reach-IsValid,
}
use my_vote_server.Engine.Inference.Choosing.{IsChosen, choose-IsChosen}

abbrev idle : AsrScheduler
idle = record {
  secondary_max_wait = 2000;
  max_primary_pending = 2;
  max_secondary_pending = 1;
  primary = [];
  secondary = [];
  futures = [];
  next_future = 0;
  changed = false;
  worker = false;
  active = none;
  closed = false;
  primary_calls = 0;
  secondary_calls = 0;
  secondary_admission_timeouts = 0;
  cancelled_queued = 0;
}

made : make 1000 2000 2 1 ≡ some idle
unfolding make is_capacity
made = refl

-- A secondary and a primary call, and the loop's first turn.
abbrev busy : AsrScheduler
busy = (submit first 5 (submit second 0 idle).1).1

abbrev running : AsrScheduler
running = run_next (λ c. 10) (λ c. admits) busy

started : Reach idle running
unfolding submit enqueue queue_of limit_of set_queue
started =
    next (next (next here (submits second 0)) (submits first 5))
      (turns (λ c. 10) (λ c. admits) refl refl)

make-Reach-IsValid_example : IsValid running
make-Reach-IsValid_example = make-Reach-IsValid 1000 2000 2 1 idle running made started

choose-IsChosen_example :
    IsChosen (λ c. 10) (λ c. admits) busy (choose (λ c. 10) (λ c. admits) busy).0
choose-IsChosen_example = choose-IsChosen (λ c. 10) (λ c. admits) busy

-- The primary call is chosen, though it came later.
primary_first :
    (choose (λ c. 10) (λ c. admits) busy).0 ≡ starts first (record { future = 1; queued_at = 5 })
unfolding choose choose_from prune_primary prune_secondary submit enqueue queue_of limit_of
    set_queue is_done get
primary_first = refl
