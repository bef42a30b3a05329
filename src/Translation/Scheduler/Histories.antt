-- ===== src/Translation/Scheduler/Histories.antt =====
-- What becomes of an active entry of app/translation/scheduler.py over any history of steps.
use my_vote_server.Translation.Scheduler.Taking.{without_head}
use my_vote_server.Translation.Scheduler.Steps.{
  Step, starts, submits, cancels, invalidates, works, begins, answers, finishes, closes, Reach,
  here, next,
}
use my_vote_server.Translation.Scheduler.Work.{finish_held}
use my_vote_server.Base.{
  ℕ, ◌<◌, ◌≡◌, refl, sym, ap, subst, ◌∙◌, inl, inr, Bool, true, false, ◌||◌, Option, none, some,
  List, [], ◌∷◌, arith, ℕ_discrete, ==_refl, ==_ne, if_ind, get_or_else, get, put, pop, has, keys,
  get-put, get-pop,
}
use my_vote_server.Translation.Job.{TranslationJob}
use my_vote_server.Translation.Scheduler.{
  Entry, absent, running, done, Active, Scheduler, Outcome, init, record_metric, queue_of, start,
  forget_ready, cancel_task, cancel_active, has_newer_peer, is_full, submit, cancel_current,
  cancel_session, prune, invalidate, Taken, activate, take_from, take, execute_begin, Attempt,
  returned, raised, Delivery, note_attempt, execute_end, finish, close,
}
use my_vote_server.Translation.Scheduler.Invariant.{invalidate_done}
use my_vote_server.Translation.Scheduler.Valid.{prune_active}
use my_vote_server.Translation.Scheduler.Attempts.{
  Origin, Tracks, Continues-refl, same-Tracks, put-Tracks, Tracks-trans, cancel_current-Tracks,
  cancel_all-Tracks, cancel_segments-Tracks, mark_ready-Tracks, admit-Tracks,
}

submit-Tracks :
    (job : TranslationJob) (callback : ℕ) (s : Scheduler) → Tracks s (submit job callback s).1
unfolding submit record_metric
submit-Tracks job callback s =
    let s' = record s { started = true } in
    let P = λ (r : Outcome × Scheduler). Tracks s r.1 in
    if_ind P s.closing _ _ (λ _. same-Tracks s s refl refl)
      λ _.
        if_ind P (has_newer_peer job s) _ _ (λ _. same-Tracks s s' refl refl)
          λ _.
            if_ind P (is_full job s) _ _ (λ _. same-Tracks s _ refl refl)
              λ _.
                Tracks-trans (same-Tracks s s' refl refl)
                  (admit-Tracks (record { job = job; callback = callback }) s')

cancel_session-Tracks : (sid : ℕ) (s : Scheduler) → Tracks s (cancel_session sid s)
unfolding cancel_session forget_ready
cancel_session-Tracks sid s = Tracks-trans (same-Tracks s _ refl refl) (cancel_current-Tracks sid _)

prune_next : (sid : ℕ) (ids : List ℕ) (s : Scheduler) → (prune sid ids s).next_ident ≡ s.next_ident
unfolding prune forget_ready
prune_next sid ids s = ground arith

invalidate-Tracks :
    (sid : ℕ) (ids : List ℕ) (s s' : Scheduler) → invalidate sid ids s ≡ some s' → Tracks s s'
invalidate-Tracks sid ids s s' e = subst (Tracks s) (invalidate_done sid ids s s' e) (
    Tracks-trans (same-Tracks s (prune sid ids s) (prune_active sid ids s).0 (prune_next sid ids s))
      (cancel_segments-Tracks sid ids (prune sid ids s)))

-- A new attempt has an identity that was not in use.
activate-Tracks :
    (sid : ℕ) (e : Entry) (rest : List Entry) (s t : Scheduler)
    → t.active ≡ s.active
    → t.next_ident ≡ s.next_ident
    → Tracks s (activate sid e rest t).1
unfolding activate
activate-Tracks sid e rest s t active ident = record {
  origin = λ k b h. elim (ℕ_discrete sid k) [
    | yes same ↦
        let new : Active = record {
          ident = t.next_ident;
          entry = e;
          task = absent;
          stale = false;
        } in
        let found : some new ≡ some b = rw (get-put sid k new t.active, same, ==_refl k) at h in
        let named = ap (λ o. (get_or_else o new).ident) found in inr (omega arith, omega arith)
    | no other ↦
        let new : Active = record {
          ident = t.next_ident;
          entry = e;
          task = absent;
          stale = false;
        } in
        let found : get k t.active ≡ some b =
          rw (get-put sid k new t.active, ==_ne sid k other) at h in
        inl (b, ap (get k) (sym active) ∙ found, Continues-refl b)
  ];
  idents = omega arith;
}

-- A ready session is skipped, or its oldest entry becomes active.
take_from_ind {κ} :
    (P : Taken × Scheduler → Type κ) (sid : ℕ) (ready : List ℕ) (t : Scheduler) (q : List Entry)
    → queue_of sid t ≡ q
    → P (take_from ready (without_head sid ready t))
    → ((x : Entry) (rest : List Entry) → P (activate sid x rest (without_head sid ready t)))
    → P (take_from (sid ∷ ready) t)
unfolding take_from
take_from_ind P sid ready t [] e skip active = rw (e, take_from) skip
take_from_ind P sid ready t (x ∷ rest) e skip active =
    rw (e, take_from) (if_ind P (has sid t.active) _ _ (λ _. skip) (λ _. active x rest))

take_from-Tracks :
    (ready : List ℕ) (s t : Scheduler)
    → t.active ≡ s.active
    → t.next_ident ≡ s.next_ident
    → Tracks s (take_from ready t).1
unfolding take_from
take_from-Tracks [] s t active ident = same-Tracks s _ active ident
take_from-Tracks (sid ∷ ready) s t active ident =
    let t' = without_head sid ready t in
    take_from_ind (λ r. Tracks s r.1) sid ready t (queue_of sid t) refl
      (take_from-Tracks ready s t' active ident)
      (λ x rest. activate-Tracks sid x rest s t' active ident)

take-Tracks : (s : Scheduler) → Tracks s (take s).1
unfolding take
take-Tracks s =
    if_ind (λ (r : Taken × Scheduler). Tracks s r.1) s.closing _ _ (λ _. same-Tracks s s refl refl)
      (λ _. take_from-Tracks s.ready s s refl refl)

execute_begin-Tracks :
    (sid : ℕ) (a : Active) (s : Scheduler)
    → get sid s.active ≡ some a
    → Tracks s (execute_begin sid a s)
unfolding execute_begin record_metric
execute_begin-Tracks sid a s e =
    if_ind (Tracks s) a.stale _ _ (λ _. same-Tracks s s refl refl)
      λ _.
        put-Tracks sid a (record a { task = running }) s _ e
          (record { same_ident = refl; same_entry = refl; stays_stale = λ h. h }) refl refl

note_attempt_frame :
    (attempt : Attempt) (fails : Bool) (s : Scheduler)
    → ((note_attempt attempt fails s).active ≡ s.active)
      × ((note_attempt attempt fails s).next_ident ≡ s.next_ident)
unfolding note_attempt record_metric
note_attempt_frame (returned r) fails s = ground arith
note_attempt_frame (raised c) fails s = ground arith

execute_end-Tracks :
    (sid : ℕ) (a : Active) (attempt : Attempt) (fails : Bool) (s : Scheduler)
    → get sid s.active ≡ some a
    → Tracks s (execute_end sid a attempt fails s).1
unfolding execute_end record_metric
execute_end-Tracks sid a attempt fails s e =
    let b = record a { task = done } in
    let s' = record s { active = put sid b s.active } in
    let ended =
      put-Tracks sid a b s s' e
        (record { same_ident = refl; same_entry = refl; stays_stale = λ h. h }) refl refl in
    let (active, ident) = note_attempt_frame attempt fails s' in
    if_ind (λ (r : Option Delivery × Scheduler). Tracks s r.1) (a.stale || s.closing) _ _
      (λ _. Tracks-trans ended (same-Tracks s' _ refl refl))
      (λ _. Tracks-trans ended (same-Tracks s' _ active ident))

pop-Tracks : (sid : ℕ) (s : Scheduler) → Tracks s (record s { active = pop sid s.active })
pop-Tracks sid s = record {
  origin = λ k b h. inl (b, ground (arith, get-pop sid k s.active), Continues-refl b);
  idents = omega arith;
}

finish-Tracks :
    (sid : ℕ) (a : Active) (s : Scheduler)
    → get sid s.active ≡ some a
    → Tracks s (finish sid a.ident s)
finish-Tracks sid a s e =
    rw (finish_held sid a s e) (Tracks-trans (pop-Tracks sid s) (mark_ready-Tracks sid _))

close-Tracks : (s : Scheduler) → Tracks s (close s)
unfolding close
close-Tracks s = Tracks-trans (same-Tracks s _ refl refl) (cancel_all-Tracks (keys s.active) _)

start-Tracks : (s s' : Scheduler) → start s ≡ some s' → Tracks s s'
unfolding start
start-Tracks s s' e = same-Tracks s s' (ground arith) (ground arith)

Step-Tracks : {s t : Scheduler} → Step s t → Tracks s t
Step-Tracks {s} (starts s' e) = start-Tracks s s' e
Step-Tracks {s} (submits job callback) = submit-Tracks job callback s
Step-Tracks {s} (cancels sid) = cancel_session-Tracks sid s
Step-Tracks {s} (invalidates sid ids s' e) = invalidate-Tracks sid ids s s' e
Step-Tracks {s} works = take-Tracks s
Step-Tracks {s} (begins sid a e) = execute_begin-Tracks sid a s e
Step-Tracks {s} (answers sid a attempt fails e) = execute_end-Tracks sid a attempt fails s e
Step-Tracks {s} (finishes sid a e) = finish-Tracks sid a s e
Step-Tracks {s} closes = close-Tracks s

-- Over any history each active entry is either an attempt that was active before, with the same
-- identity and the same job, and stale if it was stale, or a new one under a new identity.
pub Reach-Tracks : {s t : Scheduler} → Reach s t → Tracks s t
Reach-Tracks {s} here = same-Tracks s s refl refl
Reach-Tracks (next r st) = Tracks-trans (Reach-Tracks r) (Step-Tracks st)

-- The identities in use are those that were given out.
init_ident :
    (workers most most_each k : ℕ) (s t : Scheduler) (a : Active)
    → init workers most most_each ≡ some s
    → Reach s t
    → get k t.active ≡ some a
    → a.ident < t.next_ident
unfolding init get
init_ident workers most most_each k s t a e r h = go ((Reach-Tracks r).origin k a h)
  where
    go : Origin k a s t → a.ident < t.next_ident
    go (inl (b, found, c)) = absurd (ground arith)
    go (inr new) = new.1

cancel_session_stale :
    (sid : ℕ) (a b : Active) (s : Scheduler)
    → get sid s.active ≡ some a
    → get sid (cancel_session sid s).active ≡ some b
    → b.stale ≡ true
unfolding cancel_session forget_ready cancel_current cancel_active record_metric
cancel_session_stale sid a b s e h = ground (
  arith,
  get-put sid sid (record a { stale = true; task = cancel_task a.task }) s.active,
  ==_refl sid,
)

stale-execute_end :
    (sid : ℕ) (b : Active) (attempt : Attempt) (fails : Bool) (s : Scheduler)
    → b.stale ≡ true
    → (execute_end sid b attempt fails s).0 ≡ none
unfolding execute_end
stale-execute_end sid b attempt fails s e = ground arith

-- Once its session is cancelled, an attempt that was active is never delivered to its callback,
-- whatever happens before its backend answers and whatever the answer is.
pub cancel_session-execute_end :
    (workers most most_each sid : ℕ) (a b : Active) (attempt : Attempt) (fails : Bool)
    (s t u : Scheduler)
    → init workers most most_each ≡ some s
    → Reach s t
    → get sid t.active ≡ some a
    → Reach (cancel_session sid t) u
    → get sid u.active ≡ some b
    → b.ident ≡ a.ident
    → (execute_end sid b attempt fails u).0 ≡ none
cancel_session-execute_end workers most most_each sid a b attempt fails s t u e r held r' held'
      same =
    go ((Reach-Tracks r').origin sid b held')
  where
    old : a.ident < t.next_ident
    old = init_ident workers most most_each sid s t a e r held

    go : Origin sid b (cancel_session sid t) u → (execute_end sid b attempt fails u).0 ≡ none
    go (inl (c, found, f)) =
        stale-execute_end sid b attempt fails u
          (f.stays_stale (cancel_session_stale sid a c t held found))
    go (inr new) = absurd (omega (arith, old, new.0, (cancel_session-Tracks sid t).idents))
