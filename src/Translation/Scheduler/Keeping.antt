-- ===== src/Translation/Scheduler/Keeping.antt =====
-- What the operations of app/translation/scheduler.py other than `_take` and the end of a worker's
-- round leave as it is: the attempts that are active.
use my_vote_server.Base.{
  ℕ, ◌≤◌, ◌≡◌, refl, sym, ap, subst, ◌∙◌, inl, inr, Bool, true, ◌||◌, Option, none, some, List, [],
  ◌∷◌, arith, ◌==◌, if◌then◌else◌, ==_iff, Bool-cases, if_ind, Option-cases, is_some, length,
  contains, get, put, has, keys, get-put, length-put,
}
use my_vote_server.Translation.Job.{TranslationJob}
use my_vote_server.Translation.Scheduler.{
  Entry, running, done, Active, Scheduler, Outcome, record_metric, start, forget_ready, cancel_task,
  cancel_active, supersedes, supersede, store_queue, admit, has_newer_peer, is_full, submit,
  cancel_current, cancel_session, prune, cancel_segments, invalidate, execute_begin, Attempt,
  Delivery, execute_end, cancel_all, close,
}
use my_vote_server.Translation.Scheduler.Running.{note_attempt_keeps}
use my_vote_server.Translation.Scheduler.Admitting.{store_queue_active, mark_ready_active}
use my_vote_server.Translation.Scheduler.Valid.{prune_active}

-- The identity of the attempt that is active, if there is one.
unfoldable pub ident_of : Option Active → Option ℕ
ident_of none = none
ident_of (some a) = some a.ident

-- The same attempts are active, under the same sessions, and there are as many workers.
pub record Keeps (s t : Scheduler) : Type 0 where
  pub fewer : length t.active ≤ length s.active
  pub same : (k : ℕ) → ident_of (get k t.active) ≡ ident_of (get k s.active)
  pub workers : t.worker_count ≡ s.worker_count

pub same-Keeps :
    (s t : Scheduler) → t.active ≡ s.active → t.worker_count ≡ s.worker_count → Keeps s t
same-Keeps s t active workers = record {
  fewer = rw active (omega arith);
  same = λ k. ap (λ d. ident_of (get k d)) active;
  workers = workers;
}

trans-Keeps : {s t r : Scheduler} → Keeps s t → Keeps t r → Keeps s r
trans-Keeps p q = record {
  fewer = omega (arith, p.fewer, q.fewer);
  same = λ k. q.same k ∙ p.same k;
  workers = q.workers ∙ p.workers;
}

put-Keeps :
    (sid : ℕ) (a b : Active) (s t : Scheduler)
    → get sid s.active ≡ some a
    → b.ident ≡ a.ident
    → t.active ≡ put sid b s.active
    → t.worker_count ≡ s.worker_count
    → Keeps s t
unfolding has ident_of
put-Keeps sid a b s t there named active workers = record {
  fewer = rw active (ground (arith, length-put sid b s.active, ap is_some there));
  same = λ k.
      ap (λ d. ident_of (get k d)) active
      ∙ ap ident_of (get-put sid k b s.active)
      ∙ elim (Bool-cases (sid == k)) [
        | inl e ↦
            ap (λ c. ident_of (if c then some b else get k s.active)) e
            ∙ ap some named
            ∙ sym (ap ident_of (ap (λ j. get j s.active) (sym ((==_iff sid k).0 e)) ∙ there))
        | inr e ↦ ap (λ c. ident_of (if c then some b else get k s.active)) e
      ];
  workers = workers;
}

cancel_active-Keeps :
    (sid : ℕ) (a : Active) (s : Scheduler)
    → get sid s.active ≡ some a
    → Keeps s (cancel_active sid a s)
unfolding cancel_active record_metric
cancel_active-Keeps sid a s there =
    if_ind (Keeps s) a.stale _ _ (λ _. same-Keeps s s refl refl)
      (λ _.
        put-Keeps sid a (record a { stale = true; task = cancel_task a.task }) s _ there refl refl
          refl)

pub cancel_current-Keeps : (sid : ℕ) (s : Scheduler) → Keeps s (cancel_current sid s)
unfolding cancel_current
cancel_current-Keeps sid s = elim (Option-cases (get sid s.active)) [
  | inl e ↦ rw (e, cancel_current) (same-Keeps s s refl refl)
  | inr (a, e) ↦ rw (e, cancel_current) (cancel_active-Keeps sid a s e)
]

cancel_segments-Keeps :
    (sid : ℕ) (ids : List ℕ) (s : Scheduler) → Keeps s (cancel_segments sid ids s)
unfolding cancel_segments
cancel_segments-Keeps sid ids s = elim (Option-cases (get sid s.active)) [
  | inl e ↦ rw (e, cancel_segments) (same-Keeps s s refl refl)
  | inr (a, e) ↦
      rw (e, cancel_segments)
        (if_ind (Keeps s) (contains a.entry.job.segment_id ids) _ _
          (λ _. cancel_active-Keeps sid a s e) (λ _. same-Keeps s s refl refl))
]

supersede-Keeps :
    (job : TranslationJob) (o : Option Active) (s : Scheduler)
    → get job.session_id s.active ≡ o
    → Keeps s (supersede job o s)
unfolding supersede
supersede-Keeps job none s e = same-Keeps s s refl refl
supersede-Keeps job (some a) s e =
    if_ind (Keeps s) (supersedes job a) _ _ (λ _. cancel_active-Keeps job.session_id a s e)
      (λ _. same-Keeps s s refl refl)

admit-Keeps : (entry : Entry) (s : Scheduler) → Keeps s (admit entry s)
unfolding admit record_metric
admit-Keeps entry s =
    let sid = entry.job.session_id in
    let o = get sid s.active in
    let s₁ = store_queue entry s in
    let (active, workers) = store_queue_active entry s in
    let s₂ = supersede entry.job o s₁ in
    let marked = mark_ready_active sid s₂ in
    trans-Keeps (same-Keeps s s₁ active workers) (
      trans-Keeps (supersede-Keeps entry.job o s₁ (ap (get sid) active))
        (same-Keeps s₂ _ marked.0 marked.1))

pub start-Keeps : (s s' : Scheduler) → start s ≡ some s' → Keeps s s'
unfolding start
start-Keeps s s' e =
    subst (Keeps s) {x = record s { started = true }} {y = s'} (ground (arith, e))
      (same-Keeps s _ refl refl)

pub submit-Keeps :
    (job : TranslationJob) (callback : ℕ) (s : Scheduler) → Keeps s (submit job callback s).1
unfolding submit record_metric
submit-Keeps job callback s =
    let s' = record s { started = true } in
    let P = λ (r : Outcome × Scheduler). Keeps s r.1 in
    if_ind P s.closing _ _ (λ _. same-Keeps s _ refl refl)
      λ _.
        if_ind P (has_newer_peer job s) _ _ (λ _. same-Keeps s _ refl refl)
          λ _.
            if_ind P (is_full job s) _ _ (λ _. same-Keeps s _ refl refl)
              λ _.
                trans-Keeps (same-Keeps s s' refl refl)
                  (admit-Keeps (record { job = job; callback = callback }) s')

pub cancel_session-Keeps : (sid : ℕ) (s : Scheduler) → Keeps s (cancel_session sid s)
unfolding cancel_session forget_ready
cancel_session-Keeps sid s = trans-Keeps (same-Keeps s _ refl refl) (cancel_current-Keeps sid _)

pub invalidate-Keeps :
    (sid : ℕ) (ids : List ℕ) (s s' : Scheduler) → invalidate sid ids s ≡ some s' → Keeps s s'
unfolding invalidate
invalidate-Keeps sid ids s s' e =
    subst (Keeps s) {x = cancel_segments sid ids (prune sid ids s)} {y = s'} (ground (arith, e)) (
      trans-Keeps (same-Keeps s _ (prune_active sid ids s).0 (prune_active sid ids s).1)
        (cancel_segments-Keeps sid ids (prune sid ids s)))

pub execute_begin-Keeps :
    (sid : ℕ) (a : Active) (s : Scheduler)
    → get sid s.active ≡ some a
    → Keeps s (execute_begin sid a s)
unfolding execute_begin record_metric
execute_begin-Keeps sid a s e =
    if_ind (Keeps s) a.stale _ _ (λ _. same-Keeps s s refl refl)
      (λ _. put-Keeps sid a (record a { task = running }) s _ e refl refl refl)

pub execute_end-Keeps :
    (sid : ℕ) (a : Active) (attempt : Attempt) (fails : Bool) (s : Scheduler)
    → get sid s.active ≡ some a
    → Keeps s (execute_end sid a attempt fails s).1
unfolding execute_end record_metric
execute_end-Keeps sid a attempt fails s e =
    let s' = record s { active = put sid (record a { task = done }) s.active } in
    let kept = put-Keeps sid a (record a { task = done }) s s' e refl refl refl in
    let (active, workers) = note_attempt_keeps attempt fails s' in
    if_ind (λ (r : Option Delivery × Scheduler). Keeps s r.1) (a.stale || s.closing) _ _
      (λ _. trans-Keeps kept (same-Keeps s' _ refl refl))
      (λ _. trans-Keeps kept (same-Keeps s' _ active workers))

cancel_all-Keeps : (sids : List ℕ) (s : Scheduler) → Keeps s (cancel_all sids s)
unfolding cancel_all
cancel_all-Keeps [] s = same-Keeps s s refl refl
cancel_all-Keeps (sid ∷ sids) s =
    trans-Keeps (cancel_current-Keeps sid s) (cancel_all-Keeps sids (cancel_current sid s))

pub close-Keeps : (s : Scheduler) → Keeps s (close s)
unfolding close
close-Keeps s = trans-Keeps (same-Keeps s _ refl refl) (cancel_all-Keeps (keys s.active) _)
