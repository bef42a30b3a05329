-- ===== src/Translation/Scheduler/Running.antt =====
-- The active entries of app/translation/scheduler.py stand each under the session of its own job.
use my_vote_server.Base.{
  ℕ, ◌≡◌, refl, inl, inr, Bool, true, false, ◌||◌, Option, none, some, List, arith, Bool-cases,
  if_ind, Option-cases, All, contains, get, put, pop, All-put, All-pop, All-get,
}
use my_vote_server.Translation.Job.{TranslationJob}
use my_vote_server.Translation.Scheduler.{
  Entry, absent, running, done, Active, Scheduler, record_metric, cancel_task, cancel_active,
  supersedes, supersede, cancel_current, cancel_segments, activate, execute_begin, Attempt,
  returned, raised, note_attempt, execute_end,
}

abbrev pub OfItsSession : ℕ × Active → Type 0
OfItsSession (k, a) = a.entry.job.session_id ≡ k

pub record IsRunning (s : Scheduler) : Type 0 where
  pub of_session : All OfItsSession s.active

-- The active entry of a session gives way to another one of the same session.
reactivate-IsRunning :
    (sid : ℕ) (a : Active) (s : Scheduler)
    → a.entry.job.session_id ≡ sid
    → IsRunning s
    → IsRunning (record s { active = put sid a s.active })
reactivate-IsRunning sid a s own r = record {
  of_session = All-put OfItsSession sid a s.active own r.of_session;
}

-- Two schedulers with the same workers and the same active entries.
pub same_active-IsRunning : (s s' : Scheduler) → s'.active ≡ s.active → IsRunning s → IsRunning s'
same_active-IsRunning s s' active r = record { of_session = rw active r.of_session }

pub cancel_active-IsRunning :
    (sid : ℕ) (a : Active) (s : Scheduler)
    → a.entry.job.session_id ≡ sid
    → IsRunning s
    → IsRunning (cancel_active sid a s)
unfolding cancel_active record_metric
cancel_active-IsRunning sid a s own r = elim (Bool-cases a.stale) [
  | inl e ↦ rw e r
  | inr e ↦
      let b = record a { stale = true; task = cancel_task a.task } in
      rw e (
        same_active-IsRunning (record s { active = put sid b s.active }) _ refl
          (reactivate-IsRunning sid b s own r))
]

held_own :
    (sid : ℕ) (a : Active) (s : Scheduler)
    → get sid s.active ≡ some a
    → IsRunning s
    → a.entry.job.session_id ≡ sid
held_own sid a s e r = All-get OfItsSession sid a s.active e r.of_session

pub cancel_held-IsRunning :
    (sid : ℕ) (a : Active) (s : Scheduler)
    → get sid s.active ≡ some a
    → IsRunning s
    → IsRunning (cancel_active sid a s)
cancel_held-IsRunning sid a s e r = cancel_active-IsRunning sid a s (held_own sid a s e r) r

pub cancel_current-IsRunning :
    (sid : ℕ) (s : Scheduler) → IsRunning s → IsRunning (cancel_current sid s)
unfolding cancel_current
cancel_current-IsRunning sid s r = elim (Option-cases (get sid s.active)) [
  | inl e ↦ rw (e, cancel_current) r
  | inr (a, e) ↦ rw (e, cancel_current) (cancel_held-IsRunning sid a s e r)
]

pub cancel_segments-IsRunning :
    (sid : ℕ) (ids : List ℕ) (s : Scheduler) → IsRunning s → IsRunning (cancel_segments sid ids s)
unfolding cancel_segments
cancel_segments-IsRunning sid ids s r = elim (Option-cases (get sid s.active)) [
  | inl e ↦ rw (e, cancel_segments) r
  | inr (a, e) ↦ elim (Bool-cases (contains a.entry.job.segment_id ids)) [
    | inl b ↦ rw (e, cancel_segments) (rw b (cancel_held-IsRunning sid a s e r))
    | inr b ↦ rw (e, cancel_segments) (rw b r)
  ]
]

pub supersede-IsRunning :
    (job : TranslationJob) (o : Option Active) (s : Scheduler)
    → get job.session_id s.active ≡ o
    → IsRunning s
    → IsRunning (supersede job o s)
unfolding supersede
supersede-IsRunning job none s e r = r
supersede-IsRunning job (some a) s e r = elim (Bool-cases (supersedes job a)) [
  | inl b ↦ rw b (cancel_held-IsRunning job.session_id a s e r)
  | inr b ↦ rw b r
]

pub activate-IsRunning :
    (sid : ℕ) (e : Entry) (rest : List Entry) (s : Scheduler)
    → e.job.session_id ≡ sid
    → IsRunning s
    → IsRunning (activate sid e rest s).1
unfolding activate
activate-IsRunning sid e rest s own r =
    let a : Active = record { ident = s.next_ident; entry = e; task = absent; stale = false } in
    record { of_session = All-put OfItsSession sid a s.active own r.of_session }

pub execute_begin-IsRunning :
    (sid : ℕ) (a : Active) (s : Scheduler)
    → get sid s.active ≡ some a
    → IsRunning s
    → IsRunning (execute_begin sid a s)
unfolding execute_begin record_metric
execute_begin-IsRunning sid a s e r =
    let a' = record a { task = running } in
    let s' = record s { active = put sid a' s.active } in
    if_ind IsRunning a.stale s _ (λ _. r)
      (λ _.
        same_active-IsRunning s' _ refl (reactivate-IsRunning sid a' s (held_own sid a s e r) r))

pub note_attempt_keeps :
    (attempt : Attempt) (fails : Bool) (s : Scheduler)
    → ((note_attempt attempt fails s).active ≡ s.active)
      × ((note_attempt attempt fails s).worker_count ≡ s.worker_count)
unfolding note_attempt record_metric
note_attempt_keeps (returned r) fails s = ground arith
note_attempt_keeps (raised c) fails s = ground arith

pub execute_end-IsRunning :
    (sid : ℕ) (a : Active) (attempt : Attempt) (fails : Bool) (s : Scheduler)
    → get sid s.active ≡ some a
    → IsRunning s
    → IsRunning (execute_end sid a attempt fails s).1
unfolding execute_end record_metric
execute_end-IsRunning sid a attempt fails s e r =
    let a' = record a { task = done } in
    let s' = record s { active = put sid a' s.active } in
    let kept = reactivate-IsRunning sid a' s (held_own sid a s e r) r in
    let (active, workers) = note_attempt_keeps attempt fails s' in
    elim (Bool-cases (a.stale || s.closing)) [
      | inl b ↦ rw b (same_active-IsRunning s' _ refl kept)
      | inr b ↦ rw b (same_active-IsRunning s' _ active kept)
    ]

pub unactivate-IsRunning :
    (sid : ℕ) (s : Scheduler) → IsRunning s → IsRunning (record s { active = pop sid s.active })
unactivate-IsRunning sid s r = record {
  of_session = All-pop OfItsSession sid s.active r.of_session;
}
