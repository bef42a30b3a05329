-- ===== src/Translation/Scheduler/Attempts.antt =====
-- The life of one active entry of app/translation/scheduler.py, from `_take` to the callback.
use my_vote_server.Translation.Scheduler.Admitting.{store_queue_active}
use my_vote_server.Translation.Job.{TranslationJob}
use my_vote_server.Base.{
  ℕ, ◌≤◌, ◌<◌, ◌≡◌, refl, sym, ap, subst, ◌∙◌, ◌⊎◌, inl, inr, true, Option, none, some, List, [],
  ◌∷◌, arith, ℕ_discrete, ==_refl, ==_ne, if_ind, Option-cases, get_or_else, contains, get, put,
  get-put,
}
use my_vote_server.Translation.Scheduler.{
  Entry, Active, Scheduler, record_metric, mark_ready, cancel_task, cancel_active, supersedes,
  supersede, note_coalesced, store_queue, admit, cancel_current, cancel_segments, cancel_all,
}

-- Where an active entry comes from: it is the attempt of before, with the same job and no less
-- stale, or it is a new attempt, whose identity was not in use.
pub record Continues (a b : Active) : Type 0 where
  pub same_ident : b.ident ≡ a.ident
  pub same_entry : b.entry ≡ a.entry
  pub stays_stale : a.stale ≡ true → b.stale ≡ true

abbrev pub Origin : ℕ → Active → Scheduler → Scheduler → Type 0
Origin k b s t =
    ((a : Active) × (get k s.active ≡ some a) × Continues a b)
    ⊎ ((s.next_ident ≤ b.ident) × (b.ident < t.next_ident))

-- Every active entry of the later scheduler has its origin in the earlier one.
pub record Tracks (s t : Scheduler) : Type 0 where
  pub origin : (k : ℕ) (b : Active) → get k t.active ≡ some b → Origin k b s t
  pub idents : s.next_ident ≤ t.next_ident

pub Continues-refl : (a : Active) → Continues a a
Continues-refl a = record { same_ident = refl; same_entry = refl; stays_stale = λ e. e }

-- Nothing happens to the active entries.
pub same-Tracks : (s t : Scheduler) → t.active ≡ s.active → t.next_ident ≡ s.next_ident → Tracks s t
same-Tracks s t active ident = record {
  origin = λ k b e. inl (b, ap (get k) (sym active) ∙ e, Continues-refl b);
  idents = omega arith;
}

-- One active entry is written anew, as the same attempt.
pub put-Tracks :
    (sid : ℕ) (a b : Active) (s t : Scheduler)
    → get sid s.active ≡ some a
    → Continues a b
    → t.active ≡ put sid b s.active
    → t.next_ident ≡ s.next_ident
    → Tracks s t
put-Tracks sid a b s t held c active ident = record {
  origin = λ k x e. elim (ℕ_discrete sid k) [
    | yes same ↦
        let found : some b ≡ some x = rw (active, get-put sid k b s.active, same, ==_refl k) at e in
        inl (
          a,
          ap (λ j. get j s.active) (sym same) ∙ held,
          subst (Continues a) (ap (λ o. get_or_else o b) found) c,
        )
    | no other ↦
        let found : get k s.active ≡ some x =
          rw (active, get-put sid k b s.active, ==_ne sid k other) at e in
        inl (x, found, Continues-refl x)
  ];
  idents = omega arith;
}

pub Continues-trans : {a b c : Active} → Continues a b → Continues b c → Continues a c
Continues-trans f g = record {
  same_ident = g.same_ident ∙ f.same_ident;
  same_entry = g.same_entry ∙ f.same_entry;
  stays_stale = λ e. g.stays_stale (f.stays_stale e);
}

Origin-trans :
    (k : ℕ) (c : Active) (s t u : Scheduler)
    → Tracks s t
    → Tracks t u
    → Origin k c t u
    → Origin k c s u
Origin-trans k c s t u f h (inl (b, e, g)) = go (f.origin k b e)
  where
    go : Origin k b s t → Origin k c s u
    go (inl (a, e', i)) = inl (a, e', Continues-trans i g)
    go (inr new) = inr (omega (arith, g.same_ident), omega (arith, g.same_ident, h.idents))
Origin-trans k c s t u f h (inr new) = inr (omega (arith, f.idents), new.1)

pub Tracks-trans : {s t u : Scheduler} → Tracks s t → Tracks t u → Tracks s u
Tracks-trans {s} {t} {u} f g = record {
  origin = λ k c e. Origin-trans k c s t u f g (g.origin k c e);
  idents = omega (arith, f.idents, g.idents);
}

pub cancel_active-Tracks :
    (sid : ℕ) (a : Active) (s : Scheduler)
    → get sid s.active ≡ some a
    → Tracks s (cancel_active sid a s)
unfolding cancel_active record_metric
cancel_active-Tracks sid a s e =
    if_ind (Tracks s) a.stale _ _ (λ _. same-Tracks s s refl refl)
      λ _.
        put-Tracks sid a (record a { stale = true; task = cancel_task a.task }) s _ e
          (record { same_ident = refl; same_entry = refl; stays_stale = λ _. refl }) refl refl

pub cancel_current-Tracks : (sid : ℕ) (s : Scheduler) → Tracks s (cancel_current sid s)
unfolding cancel_current
cancel_current-Tracks sid s = elim (Option-cases (get sid s.active)) [
  | inl e ↦ rw (e, cancel_current) (same-Tracks s s refl refl)
  | inr (a, e) ↦ rw (e, cancel_current) (cancel_active-Tracks sid a s e)
]

pub cancel_all-Tracks : (sids : List ℕ) (s : Scheduler) → Tracks s (cancel_all sids s)
unfolding cancel_all
cancel_all-Tracks [] s = same-Tracks s s refl refl
cancel_all-Tracks (sid ∷ sids) s =
    Tracks-trans (cancel_current-Tracks sid s) (cancel_all-Tracks sids (cancel_current sid s))

pub cancel_segments-Tracks :
    (sid : ℕ) (ids : List ℕ) (s : Scheduler) → Tracks s (cancel_segments sid ids s)
unfolding cancel_segments
cancel_segments-Tracks sid ids s = elim (Option-cases (get sid s.active)) [
  | inl e ↦ rw (e, cancel_segments) (same-Tracks s s refl refl)
  | inr (a, e) ↦
      rw (e, cancel_segments)
        (if_ind (Tracks s) (contains a.entry.job.segment_id ids) _ _
          (λ _. cancel_active-Tracks sid a s e) (λ _. same-Tracks s s refl refl))
]

supersede-Tracks :
    (job : TranslationJob) (o : Option Active) (s : Scheduler)
    → get job.session_id s.active ≡ o
    → Tracks s (supersede job o s)
unfolding supersede
supersede-Tracks job none s e = same-Tracks s s refl refl
supersede-Tracks job (some a) s e =
    if_ind (Tracks s) (supersedes job a) _ _ (λ _. cancel_active-Tracks job.session_id a s e)
      (λ _. same-Tracks s s refl refl)

pub mark_ready-Tracks : (sid : ℕ) (s : Scheduler) → Tracks s (mark_ready sid s)
unfolding mark_ready
mark_ready-Tracks sid s = same-Tracks s (mark_ready sid s) (ground arith) (ground arith)

pub admit-Tracks : (entry : Entry) (s : Scheduler) → Tracks s (admit entry s)
unfolding admit record_metric store_queue note_coalesced
admit-Tracks entry s =
    let own = entry.job.session_id in
    let o = get own s.active in
    let s₁ = store_queue entry s in
    let active = (store_queue_active entry s).0 in
    Tracks-trans (same-Tracks s s₁ active (ground arith)) (
      Tracks-trans (supersede-Tracks entry.job o s₁ (ap (get own) active))
        (Tracks-trans (mark_ready-Tracks own _) (same-Tracks _ _ refl refl)))
