-- ===== src/Draft/Stabilization.antt =====
-- What app/streaming/commit.py promises of drafts.
use my_vote_server.Base.{
  ℕ, suc, ◌+◌, ◌-◌, ◌*◌, ◌≤◌, ◌≡◌, refl, ap, ◌∙◌, ◌⊎◌, inl, inr, Bool, true, false, not, none, some,
  List, [], ◌∷◌, arith, Option-cases, length, text_eq_refl,
}
use my_vote_server.Source.Text.{Unicode}
use my_vote_server.Draft.{
  DraftState, DraftCommitter, ok, err, Draft, draft, ticks_per_ms, now, same_draft, observe,
  is_committed, check, store, propose, stabilized, ready, commit_state, mark_committed,
}

pub mark_committed-stabilized :
    (clock : ℕ) (c : DraftCommitter) (s : DraftState)
    → (mark_committed clock c).0 ≡ ok s
    → (old : DraftState) × (c.state ≡ some old)
      × (old.committed ≡ false)
      × (s ≡ record old { committed = true })
      × ((mark_committed clock c).1.state ≡ some s)
      × ((c.stability_count ≤ old.observations)
          ⊎ (c.delay_ms * ticks_per_ms ≤ (now clock c).0 - old.changed_at + 1))
unfolding mark_committed ready stabilized commit_state store now
mark_committed-stabilized clock c s e = elim (Option-cases c.state) [
  | inl nothing ↦ absurd (ground arith)
  | inr (old, there) ↦ (old, there, ground arith, ground arith, ground arith, ground arith)
]

-- The calls of a committer between two resets; the number is the reading of the clock.
pub data Call : Type 0 where
  proposes : ℕ → Draft → Call
  asks commits : ℕ → Call

-- The committer after a call, and whether the call was refused, or answered that nothing is ready.
unfoldable pub call : Unicode → Call → DraftCommitter → Bool × DraftCommitter
call u (proposes clock d) c =
    ((elim (propose u clock d c).0 [ ok s ↦ false | err e ↦ true ]), (propose u clock d c).1)
call u (asks clock) c = (not (ready clock c).0, (ready clock c).1)
call u (commits clock) c =
    ((elim (mark_committed clock c).0 [ ok s ↦ false | err e ↦ true ]), (mark_committed clock c).1)

unfoldable pub calls : Unicode → List Call → DraftCommitter → DraftCommitter
calls u [] c = c
calls u (x ∷ xs) c = calls u xs (call u x c).1

call-committed :
    (u : Unicode) (x : Call) (c : DraftCommitter) (s : DraftState)
    → c.state ≡ some s
    → s.committed ≡ true
    → ((call u x c).0 ≡ true) × ((call u x c).1.state ≡ some s)
unfolding call propose is_committed now ready mark_committed
call-committed u (proposes clock d) c s e done = ground (arith, e, done)
call-committed u (asks clock) c s e done = ground (arith, e, done)
call-committed u (commits clock) c s e done = ground (arith, e, done)

calls-committed :
    (u : Unicode) (xs : List Call) (c : DraftCommitter) (s : DraftState)
    → c.state ≡ some s
    → s.committed ≡ true
    → (calls u xs c).state ≡ some s
unfolding calls
calls-committed u [] c s e done = e
calls-committed u (x ∷ xs) c s e done =
    calls-committed u xs (call u x c).1 s (call-committed u x c s e done).1 done

-- Once `mark_committed` has committed a draft, whatever is proposed, asked or committed after it
-- until a reset leaves the draft as it was committed, and every such call is refused or answers
-- that nothing is ready.
pub mark_committed-calls :
    (u : Unicode) (clock : ℕ) (c : DraftCommitter) (s : DraftState) (xs : List Call) (x : Call)
    → (mark_committed clock c).0 ≡ ok s
    → let later = calls u xs (mark_committed clock c).1 in
      (later.state ≡ some s) × ((call u x later).0 ≡ true) × ((call u x later).1.state ≡ some s)
mark_committed-calls u clock c s xs x e =
    let (old, there, open_before, made, stored, why) = mark_committed-stabilized clock c s e in
    let done : s.committed ≡ true = ap (λ (d : DraftState). d.committed) made in
    let kept = calls-committed u xs (mark_committed clock c).1 s stored done in
    let (refused, still) = call-committed u x (calls u xs (mark_committed clock c).1) s kept done in
    (kept, refused, still)

-- `n` more proposals of the same draft, at the times of a clock.
pub proposals : Unicode → Draft → List ℕ → DraftCommitter → DraftCommitter
proposals u d [] c = c
proposals u d (clock ∷ clocks) c = proposals u d clocks (propose u clock d c).1

-- The state holds this draft, and is not committed.
abbrev Holds : Draft → DraftState → Type 0
Holds (draft start stop source target revision is_final) s =
    (s.source_start ≡ start)
    × (s.source_end ≡ stop)
    × (s.source_text ≡ source)
    × (s.target_text ≡ target)
    × (s.source_revision ≡ revision)
    × (s.committed ≡ false)

-- One more observation of the same draft.
abbrev After : Draft → DraftState → ℕ → DraftCommitter → Type 0
After d s n c =
    (t : DraftState) × (c.state ≡ some t)
    × Holds d t
    × (t.observations ≡ s.observations + n)
    × (t.changed_at ≡ s.changed_at)

observe_same :
    (d : Draft) (time : ℕ) (s : DraftState)
    → Holds d s
    → Holds d (observe time d (some s))
      × ((observe time d (some s)).observations ≡ s.observations + 1)
      × ((observe time d (some s)).changed_at ≡ s.changed_at)
unfolding observe same_draft
observe_same (draft start stop source target revision is_final) time s (a, b, c, d, e, f) = (
  (refl, refl, refl, refl, refl, refl),
  ground (arith, text_eq_refl source, text_eq_refl target),
  ground (arith, text_eq_refl source, text_eq_refl target),
)

propose_state :
    (u : Unicode) (clock : ℕ) (d : Draft) (c : DraftCommitter)
    → check u d ≡ none
    → is_committed c.state ≡ false
    → (propose u clock d c).1.state ≡ some (observe (now clock c).0 d c.state)
unfolding propose store
propose_state u clock d c fine open_now = rw (fine, propose) (rw open_now refl)

propose_same :
    (u : Unicode) (clock : ℕ) (d : Draft) (c : DraftCommitter) (s : DraftState)
    → check u d ≡ none
    → c.state ≡ some s
    → Holds d s
    → After d s 1 (propose u clock d c).1
unfolding is_committed
propose_same u clock (draft start stop source target revision is_final) c s fine there h =
    let d = draft start stop source target revision is_final in
    let time = (now clock c).0 in
    let (held, counted, since) = observe_same d time s h in
    (
      observe time d (some s),
      propose_state u clock d c fine (rw (there, is_committed) h.5)
          ∙ ap (λ o. some (observe time d o)) there,
      held,
      counted,
      since,
    )

proposals_same :
    (u : Unicode) (d : Draft) (clocks : List ℕ) (c : DraftCommitter) (s : DraftState)
    → check u d ≡ none
    → c.state ≡ some s
    → Holds d s
    → After d s (length clocks) (proposals u d clocks c)
unfolding proposals
proposals_same u d [] c s fine there h = (s, there, h, omega arith, refl)
proposals_same u d (clock ∷ clocks) c s fine there h =
    let (t, there', h', counted, since) = propose_same u clock d c s fine there h in
    let (t₂, there₂, h₂, counted₂, since₂) =
      proposals_same u d clocks (propose u clock d c).1 t fine there' h' in
    (t₂, there₂, h₂, omega arith, since₂ ∙ since)

observe_first :
    (d : Draft) (time : ℕ)
    → Holds d (observe time d none) × ((observe time d none).observations ≡ 1)
unfolding observe
observe_first (draft start stop source target revision is_final) time =
    ((refl, refl, refl, refl, refl, refl), refl)

ready_often :
    (clock : ℕ) (d : Draft) (c : DraftCommitter) (s : DraftState)
    → c.state ≡ some s
    → Holds d s
    → c.stability_count ≤ s.observations
    → (ready clock c).0 ≡ true
unfolding ready stabilized
ready_often clock (draft start stop source target revision is_final) c s there h often =
    ground arith

proposals_count :
    (u : Unicode) (d : Draft) (clocks : List ℕ) (c : DraftCommitter)
    → (proposals u d clocks c).stability_count ≡ c.stability_count
unfolding proposals propose now store
proposals_count u d [] c = refl
proposals_count u d (clock ∷ clocks) c =
    proposals_count u d clocks (propose u clock d c).1 ∙ ground arith

-- A valid draft that is proposed `stability_count` times in a row, to a committer that is new or
-- reset, is ready, whatever the times of the proposals are.
pub proposals-ready :
    (u : Unicode) (d : Draft) (first clock : ℕ) (clocks : List ℕ) (c : DraftCommitter)
    → c.state ≡ none
    → check u d ≡ none
    → c.stability_count ≤ suc (length clocks)
    → (ready clock (proposals u d (first ∷ clocks) c)).0 ≡ true
unfolding proposals is_committed
proposals-ready u d first clock clocks c empty fine enough =
    let s = observe (now first c).0 d none in
    let (h, once) = observe_first d (now first c).0 in
    let there =
      propose_state u first d c fine (rw (empty, is_committed))
      ∙ ap (λ o. some (observe (now first c).0 d o)) empty in
    let (t, there', h', counted, since) =
      proposals_same u d clocks (propose u first d c).1 s fine there h in
    ready_often clock d (proposals u d (first ∷ clocks) c) t there' h'
      (omega (arith, proposals_count u d (first ∷ clocks) c))
