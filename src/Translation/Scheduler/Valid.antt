-- ===== src/Translation/Scheduler/Valid.antt =====
-- Every step on a scheduler of app/translation/scheduler.py keeps its bookkeeping and its limits.
use my_vote_server.Base.{
  ℕ, ◌≡◌, refl, subst, inl, inr, Bool, true, false, some, List, [], ◌∷◌, arith, Bool-cases, if_ind,
  Option-cases, contains, get, pop, has,
}
use my_vote_server.Translation.Job.{TranslationJob}
use my_vote_server.Translation.Scheduler.{
  Metric, translation_queue_rejected, Entry, Active, Scheduler, Outcome, record_metric, queue_of,
  start, forget_ready, admit, has_newer_peer, is_full, submit, cancel_session, prune,
  cancel_segments, invalidate, take, execute_begin, Attempt, returned, raised, note_attempt,
  execute_end, finish, close,
}
use my_vote_server.Translation.Scheduler.Invariant.{
  IsTracked, cancel_session-IsTracked, invalidate_done, invalidate-IsTracked,
}
use my_vote_server.Translation.Scheduler.Admission.{metric-IsTracked, admit-IsTracked}
use my_vote_server.Translation.Scheduler.Work.{
  execute_begin-IsTracked, execute_end-IsTracked, finish_held-IsTracked, finish_held,
}
use my_vote_server.Translation.Scheduler.Bounds.{
  IsBounded, SameRest, SameRest-IsBounded, mark_ready-IsBounded, forget-IsBounded,
  cancel_active-IsBounded, cancel_current-IsBounded, prune-IsBounded,
}
use my_vote_server.Translation.Scheduler.Running.{
  IsRunning, same_active-IsRunning, cancel_current-IsRunning, cancel_segments-IsRunning,
  activate-IsRunning, execute_begin-IsRunning, execute_end-IsRunning, unactivate-IsRunning,
}
use my_vote_server.Translation.Scheduler.Admitting.{
  admit-IsBounded, mark_ready-IsRunning, admit-IsRunning,
}
use my_vote_server.Translation.Scheduler.Taking.{
  without_head, take-TakesFrom, take_idle, take_closed, activated-IsTracked, activated-IsBounded,
}
use my_vote_server.Translation.Scheduler.Closing.{close-IsRunning, close-IsTracked, close-IsBounded}
use my_vote_server.Translation.Scheduler.Steps.{
  Step, starts, submits, cancels, invalidates, works, begins, answers, finishes, closes,
}

pub record IsValid (s : Scheduler) : Type 0 where
  pub tracked : (k : ℕ) → IsTracked s k
  pub bounded : IsBounded s
  pub running : IsRunning s

pub start-IsValid : (s s' : Scheduler) → start s ≡ some s' → IsValid s → IsValid s'
unfolding start queue_of
start-IsValid s s' e v = subst IsValid (ground arith) started
  where
    started : IsValid (record s { started = true })
    started = record {
      tracked = λ k. ground (arith, v.tracked k);
      bounded = SameRest-IsBounded s _ (refl, refl, refl, refl, refl, refl) v.bounded;
      running = same_active-IsRunning s _ refl v.running;
    }

counted-IsValid : (m : Metric) (s : Scheduler) → IsValid s → IsValid (record_metric m s)
unfolding record_metric
counted-IsValid m s v = record {
  tracked = λ k. metric-IsTracked m k s (v.tracked k);
  bounded = SameRest-IsBounded s _ (refl, refl, refl, refl, refl, refl) v.bounded;
  running = same_active-IsRunning s _ refl v.running;
}

marked-IsValid : (s : Scheduler) → IsValid s → IsValid (record s { started = true })
unfolding queue_of
marked-IsValid s v = record {
  tracked = λ k. ground (arith, v.tracked k);
  bounded = SameRest-IsBounded s _ (refl, refl, refl, refl, refl, refl) v.bounded;
  running = same_active-IsRunning s _ refl v.running;
}

-- The job is admitted into a valid scheduler that is open and has room for it.
admit-IsValid :
    (entry : Entry) (s : Scheduler)
    → s.closing ≡ false
    → is_full entry.job s ≡ false
    → IsValid s
    → IsValid (admit entry s)
admit-IsValid entry s open_now room v = record {
  tracked = λ k. admit-IsTracked entry k s open_now v.tracked;
  bounded = admit-IsBounded entry s room (v.tracked entry.job.session_id) v.bounded;
  running = admit-IsRunning entry s v.running;
}

pub submit-IsValid :
    (job : TranslationJob) (callback : ℕ) (s : Scheduler)
    → IsValid s
    → IsValid (submit job callback s).1
unfolding submit is_full queue_of
submit-IsValid job callback s v =
    let s' = record s { started = true } in
    let v' = marked-IsValid s v in
    let P = λ (r : Outcome × Scheduler). IsValid r.1 in
    if_ind P s.closing _ _ (λ _. v)
      λ open_now.
        if_ind P (has_newer_peer job s) _ _ (λ _. v')
          λ _.
            if_ind P (is_full job s) _ _ (λ _. counted-IsValid translation_queue_rejected s' v')
              λ room. admit-IsValid (record { job = job; callback = callback }) s' open_now room v'

pub cancel_session-IsValid : (sid : ℕ) (s : Scheduler) → IsValid s → IsValid (cancel_session sid s)
unfolding cancel_session forget_ready
cancel_session-IsValid sid s v = record {
  tracked = λ k. cancel_session-IsTracked sid k s (v.tracked k);
  bounded = cancel_current-IsBounded sid _ (forget-IsBounded sid s v.bounded);
  running = cancel_current-IsRunning sid _ (same_active-IsRunning s _ refl v.running);
}

pub prune_active :
    (sid : ℕ) (ids : List ℕ) (s : Scheduler)
    → ((prune sid ids s).active ≡ s.active) × ((prune sid ids s).worker_count ≡ s.worker_count)
unfolding prune forget_ready
prune_active sid ids s = ground arith

cancel_segments-IsBounded :
    (sid : ℕ) (ids : List ℕ) (s : Scheduler) → IsBounded s → IsBounded (cancel_segments sid ids s)
unfolding cancel_segments
cancel_segments-IsBounded sid ids s b = elim (Option-cases (get sid s.active)) [
  | inl e ↦ rw (e, cancel_segments) b
  | inr (a, e) ↦
      rw (e, cancel_segments)
        (if_ind IsBounded (contains a.entry.job.segment_id ids) _ _
          (λ _. cancel_active-IsBounded sid a s b) (λ _. b))
]

pub invalidate-IsValid :
    (sid : ℕ) (ids : List ℕ) (s s' : Scheduler)
    → invalidate sid ids s ≡ some s'
    → IsValid s
    → IsValid s'
invalidate-IsValid sid ids s s' e v = record {
  tracked = λ k. invalidate-IsTracked sid k ids s s' (v.tracked k) e;
  bounded =
      subst IsBounded done
        (cancel_segments-IsBounded sid ids _ (prune-IsBounded sid ids s v.bounded));
  running = subst IsRunning done (cancel_segments-IsRunning sid ids _ pruned);
}
  where
    done : cancel_segments sid ids (prune sid ids s) ≡ s'
    done = invalidate_done sid ids s s' e

    pruned : IsRunning (prune sid ids s)
    pruned = same_active-IsRunning s _ (prune_active sid ids s).0 v.running

take_ready-IsValid :
    (s : Scheduler) (ready : List ℕ)
    → s.ready ≡ ready
    → s.closing ≡ false
    → IsValid s
    → IsValid (take s).1
take_ready-IsValid s [] e open_now v =
    rw (take_idle s open_now e) (subst (λ l. IsValid (record s { ready = l })) e v)
take_ready-IsValid s (sid ∷ ready) e open_now v =
    let f = take-TakesFrom sid ready s open_now e (v.tracked sid) in
    let own = rw f.queued at (v.bounded.owned sid) in
    rw f.result (record {
      tracked = λ k. activated-IsTracked sid k ready s e v.bounded.listed_once (v.tracked k) f;
      bounded = activated-IsBounded sid ready s e v.bounded f;
      running =
          activate-IsRunning sid f.entry f.rest (without_head sid ready s) own.0
            (same_active-IsRunning s _ refl v.running);
    })

pub take-IsValid : (s : Scheduler) → IsValid s → IsValid (take s).1
take-IsValid s v = elim (Bool-cases s.closing) [
  | inl closed ↦ rw (take_closed s closed) v
  | inr open_now ↦ take_ready-IsValid s s.ready refl open_now v
]

execute_begin-SameRest : (sid : ℕ) (a : Active) (s : Scheduler) → SameRest s (execute_begin sid a s)
unfolding execute_begin record_metric
execute_begin-SameRest sid a s = ground arith

pub execute_begin-IsValid :
    (sid : ℕ) (a : Active) (s : Scheduler)
    → get sid s.active ≡ some a
    → IsValid s
    → IsValid (execute_begin sid a s)
unfolding has
execute_begin-IsValid sid a s e v = record {
  tracked = λ k. execute_begin-IsTracked sid k a s (rw (e, has)) (v.tracked k);
  bounded = SameRest-IsBounded s _ (execute_begin-SameRest sid a s) v.bounded;
  running = execute_begin-IsRunning sid a s e v.running;
}

execute_end-SameRest :
    (sid : ℕ) (a : Active) (attempt : Attempt) (fails : Bool) (s : Scheduler)
    → SameRest s (execute_end sid a attempt fails s).1
unfolding execute_end note_attempt record_metric
execute_end-SameRest sid a (returned r) fails s = ground arith
execute_end-SameRest sid a (raised c) fails s = ground arith

pub execute_end-IsValid :
    (sid : ℕ) (a : Active) (attempt : Attempt) (fails : Bool) (s : Scheduler)
    → get sid s.active ≡ some a
    → IsValid s
    → IsValid (execute_end sid a attempt fails s).1
unfolding has
execute_end-IsValid sid a attempt fails s e v = record {
  tracked = λ k. execute_end-IsTracked sid k a attempt fails s (rw (e, has)) (v.tracked k);
  bounded = SameRest-IsBounded s _ (execute_end-SameRest sid a attempt fails s) v.bounded;
  running = execute_end-IsRunning sid a attempt fails s e v.running;
}

pub finish-IsValid :
    (sid : ℕ) (a : Active) (s : Scheduler)
    → get sid s.active ≡ some a
    → IsValid s
    → IsValid (finish sid a.ident s)
finish-IsValid sid a s e v = rw (finish_held sid a s e) (record {
  tracked = λ k. finish_held-IsTracked sid k s v.tracked;
  bounded =
      mark_ready-IsBounded sid popped (v.tracked sid).mirrored
        (SameRest-IsBounded s popped (refl, refl, refl, refl, refl, refl) v.bounded);
  running = mark_ready-IsRunning sid popped (unactivate-IsRunning sid s v.running);
})
  where
    popped : Scheduler
    popped = record s { active = pop sid s.active }

pub close-IsValid : (s : Scheduler) → IsValid s → IsValid (close s)
close-IsValid s v = record {
  tracked = λ k. close-IsTracked k s;
  bounded = close-IsBounded s;
  running = close-IsRunning s v.running;
}

pub Step-IsValid : {s t : Scheduler} → IsValid s → Step s t → IsValid t
Step-IsValid {s} v (starts s' e) = start-IsValid s s' e v
Step-IsValid {s} v (submits job callback) = submit-IsValid job callback s v
Step-IsValid {s} v (cancels sid) = cancel_session-IsValid sid s v
Step-IsValid {s} v (invalidates sid ids s' e) = invalidate-IsValid sid ids s s' e v
Step-IsValid {s} v works = take-IsValid s v
Step-IsValid {s} v (begins sid a e) = execute_begin-IsValid sid a s e v
Step-IsValid {s} v (answers sid a attempt fails e) = execute_end-IsValid sid a attempt fails s e v
Step-IsValid {s} v (finishes sid a e) = finish-IsValid sid a s e v
Step-IsValid {s} v closes = close-IsValid s v
