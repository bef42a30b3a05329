-- ===== src/Translation/Scheduler/Submission.antt =====
-- What `submit` of app/translation/scheduler.py promises to its callers.
use my_vote_server.Translation.Scheduler.Admitting.{
  supersede-SameRest, store_queue_active, mark_ready_active,
}
use my_vote_server.Base.{
  ℕ, ◌≡◌, refl, sym, ap, ◌∙◌, ◌≢◌, true, false, Option, none, some, List, [], ◌∷◌, ◌++◌, arith,
  ℕ_discrete, ◌==◌, if◌then◌else◌, ==_refl, ==_ne, get_or_else, filter, get, get-put,
  get_or_else-put,
}
use my_vote_server.Translation.Job.{TranslationJob}
use my_vote_server.Translation.Scheduler.{
  Entry, Active, Scheduler, Error, accepted, refused, record_metric, queue_of, cancel_task,
  cancel_active, is_replaced, enqueue, supersede, store_queue, admit, submit,
}
use my_vote_server.Translation.Scheduler.Admission.{store_queue-Stored}
use my_vote_server.Translation.Scheduler.Queueing.{kept_by, IsInserted, enqueue-IsInserted}
use my_vote_server.Translation.Scheduler.Bounds.{SameRest, mark_ready-SameQueues}

-- The entries that are final translations.
abbrev pub finals : List Entry → List Entry
finals = filter (λ e. e.job.final)

finals-append : (xs ys : List Entry) → finals (xs ++ ys) ≡ finals xs ++ finals ys
finals-append [] ys = refl
finals-append (x ∷ xs) ys = ground (arith, finals-append xs ys)

-- A replaced entry is no final one.
finals-kept_by :
    (job : TranslationJob) (queue : List Entry) → finals (kept_by job queue) ≡ finals queue
unfolding is_replaced
finals-kept_by job [] = refl
finals-kept_by job (e ∷ queue) = ground (arith, finals-kept_by job queue)

admit_queue :
    (entry : Entry) (k : ℕ) (s : Scheduler)
    → queue_of k (admit entry s) ≡ (
        if entry.job.session_id == k
        then enqueue entry (queue_of entry.job.session_id s)
        else queue_of k s)
unfolding admit record_metric queue_of
admit_queue entry k s =
    let sid = entry.job.session_id in
    let s₁ = store_queue entry s in
    let s₂ = supersede entry.job (get sid s.active) s₁ in
    let pending =
      (mark_ready-SameQueues sid s₂).0
      ∙ (supersede-SameRest entry.job (get sid s.active) s₁).0
      ∙ (store_queue-Stored entry s).0 in
    ap (λ d. get_or_else (get k d) []) pending
    ∙ get_or_else-put sid k (enqueue entry (queue_of sid s)) [] s.pending

submit_accepted :
    (job : TranslationJob) (callback : ℕ) (s : Scheduler)
    → (submit job callback s).0 ≡ accepted
    → ((submit job callback s).1
        ≡ admit (record { job = job; callback = callback }) (record s { started = true }))
      × (s.closing ≡ false)
unfolding submit
submit_accepted job callback s e = ground arith

-- An accepted job is put into the queue of its session and into no other. There it takes the
-- place of the first partial that it replaces, or else the last place, and every entry that it
-- does not replace stays, in its order.
pub submit-IsInserted :
    (job : TranslationJob) (callback k : ℕ) (s : Scheduler)
    → (submit job callback s).0 ≡ accepted
    → let entry : Entry = record { job = job; callback = callback } in
      let s' = (submit job callback s).1 in
      IsInserted entry (queue_of job.session_id s) (queue_of job.session_id s')
      × (k ≢ job.session_id → queue_of k s' ≡ queue_of k s)
unfolding queue_of
submit-IsInserted job callback k s e =
    let entry : Entry = record { job = job; callback = callback } in
    let (admitted, open_now) = submit_accepted job callback s e in
    let s₁ = record s { started = true } in
    (
      rw (admitted, admit_queue entry job.session_id s₁, ==_refl job.session_id)
          (enqueue-IsInserted entry (queue_of job.session_id s)),
      λ other.
          rw (admitted, admit_queue entry k s₁, ==_ne job.session_id k (λ q. other (sym q))) refl,
    )

-- No final entry of any session is dropped or moved past another when a job is accepted: the final
-- entries of the job's session are those from before, in their order, with the new one among them
-- if it is final, and those of every other session are just those from before.
pub submit-finals :
    (job : TranslationJob) (callback : ℕ) (s : Scheduler)
    → (submit job callback s).0 ≡ accepted
    → let entry : Entry = record { job = job; callback = callback } in
      (front : List Entry) × (back : List Entry) × (finals (queue_of job.session_id s)
        ≡ front ++ back)
      × (finals (queue_of job.session_id (submit job callback s).1)
          ≡ front ++ (if job.final then entry ∷ back else back))
      × ((k : ℕ)
          → k ≢ job.session_id
          → finals (queue_of k (submit job callback s).1) ≡ finals (queue_of k s))
submit-finals job callback s e =
    let entry : Entry = record { job = job; callback = callback } in
    let i = (submit-IsInserted job callback 0 s e).0 in
    let queue = queue_of job.session_id s in
    (
      finals i.front,
      finals i.back,
      sym (finals-kept_by job queue) ∙ ap finals i.kept ∙ finals-append i.front i.back,
      ap finals i.placed ∙ finals-append i.front (entry ∷ i.back),
      λ k other. ap finals ((submit-IsInserted job callback k s e).1 other),
    )

-- A refused job leaves the queues, the limits, the ready list and the active entries as they were.
pub submit_refused :
    (job : TranslationJob) (callback : ℕ) (error : Error) (s : Scheduler)
    → (submit job callback s).0 ≡ refused error
    → let s' = (submit job callback s).1 in SameRest s s' × (s'.active ≡ s.active)
unfolding submit record_metric
submit_refused job callback error s e = ground arith

supersede_final :
    (job : TranslationJob) (sid : ℕ) (a : Active) (o : Option Active) (s : Scheduler)
    → get job.session_id s.active ≡ o
    → get sid s.active ≡ some a
    → a.entry.job.final ≡ true
    → get sid (supersede job o s).active ≡ some a
unfolding supersede cancel_active record_metric is_replaced
supersede_final job sid a none s here e final = e
supersede_final job sid a (some b) s here e final = elim (ℕ_discrete job.session_id sid) [
  | yes same ↦
      let twin : some b ≡ some a = sym here ∙ ap (λ k. get k s.active) same ∙ e in
      ground (arith, twin)
  | no other ↦ ground (
    arith,
    ==_ne job.session_id sid other,
    get-put job.session_id sid (record b { stale = true; task = cancel_task b.task }) s.active,
  )
]

admit_final :
    (entry : Entry) (sid : ℕ) (a : Active) (s : Scheduler)
    → get sid s.active ≡ some a
    → a.entry.job.final ≡ true
    → get sid (admit entry s).active ≡ some a
unfolding admit record_metric
admit_final entry sid a s e final =
    let own = entry.job.session_id in
    let o = get own s.active in
    let s₁ = store_queue entry s in
    let (active, workers) = store_queue_active entry s in
    ap (get sid) (mark_ready_active own (supersede entry.job o s₁)).0
    ∙ supersede_final entry.job sid a o s₁ (ap (get own) active) (ap (get sid) active ∙ e) final

-- A final translation that is being made is not cancelled by a later job of any session.
pub submit_active-final :
    (job : TranslationJob) (callback sid : ℕ) (a : Active) (s : Scheduler)
    → get sid s.active ≡ some a
    → a.entry.job.final ≡ true
    → get sid (submit job callback s).1.active ≡ some a
unfolding submit record_metric
submit_active-final job callback sid a s e final = ground (
  arith,
  admit_final (record { job = job; callback = callback }) sid a (record s { started = true }) e
      final,
)
