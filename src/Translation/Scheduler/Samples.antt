-- ===== src/Translation/Scheduler/Samples.antt =====
-- A small scheduler of app/translation/scheduler.py, and the theorems about it at small inputs.
use my_vote_server.Base.{
  ℕ, ◌≤◌, ◌≡◌, refl, ◌≢◌, Bool, true, false, none, some, List, [], ◌∷◌, ◌++◌, arith, length, get,
  put, pop, has, keys, total,
}
use my_vote_server.Translation.Job.{TranslationJob, same_segment}
use my_vote_server.Translation.Scheduler.{
  Entry, absent, Active, Scheduler, queue_full, accepted, refused, init, queue_of, is_newer_peer,
  is_replaced, admit, has_newer_peer, is_full, submit, cancel_session, activate, take,
  execute_begin, returned, execute_end, finish, close,
}
use my_vote_server.Translation.Scheduler.Bounds.{SameRest}
use my_vote_server.Translation.Scheduler.Steps.{submits, works, Reach, here, next}
use my_vote_server.Translation.Scheduler.Valid.{IsValid}
use my_vote_server.Translation.Scheduler.Pool.Staffed.{init-Runs-IsValid}
use my_vote_server.Translation.Scheduler.Pool.{
  new_pool, works_on, calls_submit, worker_takes, Runs, fresh_run, one_more,
}
use my_vote_server.Translation.Scheduler.Submission.{
  finals, submit-IsInserted, submit-finals, submit_refused, submit_active-final,
}
use my_vote_server.Translation.Scheduler.Attempts.{Tracks}
use my_vote_server.Translation.Scheduler.Histories.{Reach-Tracks, cancel_session-execute_end}

abbrev sample_job : ℕ → ℕ → ℕ → Bool → TranslationJob
sample_job session segment revision final = record {
  session_id = session;
  generation_id = 0;
  sequence = revision;
  source_revision = revision;
  segment_id = segment;
  source = b'a' ∷ [];
  source_language = 1;
  target_language = 2;
  source_context = [];
  translation_context = [];
  glossary = [];
  final = final;
  created_at = 0;
  model = none;
  temperature = none;
}

-- One worker, at most three jobs, and two for each session.
abbrev fresh : Scheduler
fresh = record {
  worker_count = 1;
  max_pending = 3;
  max_pending_per_session = 2;
  pending = [];
  ready = [];
  ready_set = [];
  active = [];
  next_ident = 0;
  started = false;
  closing = false;
  metrics = [];
}

program : Unit {0}
unfolding init submit admit has_newer_peer is_full is_newer_peer is_replaced same_segment take
    activate cancel_session execute_begin execute_end finish get put pop has total keys close
program = tt

fresh-init : init 1 3 2 ≡ some fresh
unfolding program
fresh-init = refl

-- A final and a partial of session 5, and a partial of session 6.
queued : Scheduler
queued = (submit (sample_job 5 2 1 false) 9 (submit (sample_job 5 1 1 true) 9 fresh).1).1

queued-Reach : Reach fresh queued
unfolding queued
queued-Reach =
    next (next here (submits (sample_job 5 1 1 true) 9)) (submits (sample_job 5 2 1 false) 9)

taken : Scheduler
taken = (take queued).1

abbrev final_active : Active
final_active = record {
  ident = 0;
  entry = record { job = sample_job 5 1 1 true; callback = 9 };
  task = absent;
  stale = false;
}

taken_active : get 5 taken.active ≡ some final_active
unfolding program queued taken
taken_active = refl

taken-Reach : Reach fresh taken
unfolding taken
taken-Reach = next queued-Reach works

-- The only worker has taken the final job.
worked : Runs (new_pool fresh) (record { scheduler = taken; idle = 0; holds = (5, 0) ∷ [] })
unfolding program queued taken new_pool works_on
worked =
    one_more
      (one_more (one_more fresh_run (calls_submit (sample_job 5 1 1 true) 9))
        (calls_submit (sample_job 5 2 1 false) 9))
      (worker_takes (omega arith))

init-Runs-IsValid_example : IsValid taken × (length taken.active ≤ 1)
unfolding program queued taken
init-Runs-IsValid_example =
    init-Runs-IsValid 1 3 2 fresh (record { scheduler = taken; idle = 0; holds = (5, 0) ∷ [] })
      fresh-init worked

-- The newer partial of segment 2 is accepted in place of the older one.
replaced : (submit (sample_job 5 2 2 false) 9 queued).0 ≡ accepted
unfolding program queued
replaced = refl

submit-IsInserted_example :
    queue_of 6 (submit (sample_job 5 2 2 false) 9 queued).1 ≡ queue_of 6 queued
submit-IsInserted_example =
    (submit-IsInserted (sample_job 5 2 2 false) 9 6 queued replaced).1 (omega arith)

submit-finals_example :
    (front : List Entry) × (back : List Entry) × (finals (queue_of 5 queued) ≡ front ++ back)
    × (finals (queue_of 5 (submit (sample_job 5 2 2 false) 9 queued).1) ≡ front ++ back)
    × ((k : ℕ)
        → k ≢ 5
        → finals (queue_of k (submit (sample_job 5 2 2 false) 9 queued).1)
          ≡ finals (queue_of k queued))
submit-finals_example = submit-finals (sample_job 5 2 2 false) 9 queued replaced

-- A third segment of session 5 does not fit.
overfull : (submit (sample_job 5 3 1 true) 9 queued).0 ≡ refused queue_full
unfolding program queued
overfull = refl

submit_refused_example :
    SameRest queued (submit (sample_job 5 3 1 true) 9 queued).1
    × ((submit (sample_job 5 3 1 true) 9 queued).1.active ≡ queued.active)
submit_refused_example = submit_refused (sample_job 5 3 1 true) 9 queue_full queued overfull

submit_active-final_example :
    get 5 (submit (sample_job 5 1 2 false) 9 taken).1.active ≡ some final_active
submit_active-final_example =
    submit_active-final (sample_job 5 1 2 false) 9 5 final_active taken taken_active refl

Reach-Tracks_example : Tracks fresh taken
Reach-Tracks_example = Reach-Tracks taken-Reach

abbrev stale_active : Active
stale_active = record final_active { stale = true }

cancelled_active : get 5 (cancel_session 5 taken).active ≡ some stale_active
unfolding program queued taken
cancelled_active = refl

cancel_session-execute_end_example :
    (execute_end 5 stale_active (returned 4) false (cancel_session 5 taken)).0 ≡ none
cancel_session-execute_end_example =
    cancel_session-execute_end 1 3 2 5 final_active stale_active (returned 4) false fresh taken
      (cancel_session 5 taken) fresh-init taken-Reach taken_active here cancelled_active refl
