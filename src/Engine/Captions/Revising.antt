-- ===== src/Engine/Captions/Revising.antt =====
-- `revise_translations` of MyVote-Speaker-Update/src/myvote_engine/captions.py lets captions evolve.
use my_vote_server.Base.{
  ℕ, ◌≡◌, refl, sym, ap, subst, ◌∙◌, inl, inr, Bool, true, false, Option, none, some, List, [], ◌∷◌,
  arith, ◌==◌, ==_iff, Bool-cases, get_or_else, is_empty, All, get, has, get-put,
}
use my_vote_server.Engine.Captions.Segments.{
  CaptionTranslation, CaptionSegment, current_translation, CaptionResultCorrection,
}
use my_vote_server.Engine.Captions.Store.{
  results_revised, CaptionStore, note, lookup_segment, put_segment, revise_result, revise_segment,
  revised, all_revised, put_segments, revise_translations,
}
use my_vote_server.Engine.Captions.Evolution.{
  Evolves, edit-Evolves, IsSound, Moves, Moves-refl, Moves-trans, note-Moves, put-Moves,
  old_held-put_segment,
}

with_translation : Option CaptionTranslation → CaptionSegment → CaptionSegment
with_translation t x = record x { translation = t }

-- A caption of the projection that is no tombstone, with another translation.
record IsRevision (s : CaptionStore) (y : CaptionSegment) : Type 0 where
  before : CaptionSegment
  stored : get y.segment_id s.segments ≡ some before
  same : y ≡ with_translation y.translation before
  fresh : is_empty before.superseded_by ≡ true
  free : get y.segment_id s.held_children ≡ none

revise_result-same :
    (generation : ℕ) (c : CaptionResultCorrection) (x : CaptionSegment)
    (t : Option CaptionTranslation) (y : CaptionSegment)
    → revise_result generation c x t ≡ some y
    → y ≡ with_translation y.translation x
unfolding revise_result with_translation
revise_result-same generation c x none y e = ground arith
revise_result-same generation c x (some t) y e = ground arith

revise_segment-IsRevision :
    (generation : ℕ) (s : CaptionStore) (c : CaptionResultCorrection) (o : Option CaptionSegment)
    (y : CaptionSegment)
    → IsSound s
    → lookup_segment c.segment_id s ≡ o
    → revise_segment generation s c o ≡ some y
    → IsRevision s y
unfolding revise_segment lookup_segment has with_translation
revise_segment-IsRevision generation s c none y v e h = absurd (ground arith)
revise_segment-IsRevision generation s c (some x) y v e h = record {
  before = x;
  stored = ap (λ i. get i s.segments) here ∙ stored;
  same = same;
  fresh = ground (arith, h);
  free = ap (λ i. get i s.held_children) here ∙ free;
}
  where
    free : get c.segment_id s.held_children ≡ none
    free = ground (arith, h)

    stored : get c.segment_id s.segments ≡ some x
    stored = ground (arith, e, free)

    same : y ≡ with_translation y.translation x
    same = revise_result-same generation c x (current_translation x) y (ground (arith, h))

    here : y.segment_id ≡ c.segment_id
    here = ap (λ (z : CaptionSegment). z.segment_id) same ∙ v.keyed c.segment_id x stored

all_revised-IsRevision :
    (generation : ℕ) (s : CaptionStore) (cs : List CaptionResultCorrection)
    (xs : List CaptionSegment)
    → IsSound s
    → all_revised generation s cs ≡ some xs
    → All (IsRevision s) xs
unfolding all_revised revised
all_revised-IsRevision generation s [] xs v e =
    subst (All (IsRevision s)) {x = []} {y = xs} (ground arith) tt
all_revised-IsRevision generation s (c ∷ cs) xs v e =
    split (revise_segment generation s c (lookup_segment c.segment_id s)) refl
      (all_revised generation s cs) refl (all_revised-IsRevision generation s cs)
  where
    split :
        (o : Option CaptionSegment)
        → revise_segment generation s c (lookup_segment c.segment_id s) ≡ o
        → (rest : Option (List CaptionSegment)) → all_revised generation s cs ≡ rest
        → ((ys : List CaptionSegment)
            → IsSound s
            → all_revised generation s cs ≡ some ys
            → All (IsRevision s) ys)
        → All (IsRevision s) xs
    split none p rest q later = absurd (ground (arith, e, p))
    split (some y) p none q later = absurd (ground (arith, e, p, q))
    split (some y) p (some ys) q later =
        subst (All (IsRevision s)) {x = y ∷ ys} {y = xs} (ground (arith, e, p, q)) (
          revise_segment-IsRevision generation s c (lookup_segment c.segment_id s) y v refl p,
          later ys v q,
        )

-- A store on the way through the batch: of the projection only translations differ.
record IsBatch (s t : CaptionStore) : Type 0 where
  moved : Moves s t
  told :
      (k : ℕ) (x : CaptionSegment)
      → get k s.segments ≡ some x
      → (o : Option CaptionTranslation) × (get k t.segments ≡ some (with_translation o x))
  same_held : t.held_children ≡ s.held_children

put_segment-IsBatch :
    (y : CaptionSegment) (s t : CaptionStore)
    → IsRevision s y
    → IsBatch s t
    → IsBatch s (put_segment y t)
unfolding put_segment with_translation has
put_segment-IsBatch y s t r b = record {
  moved = Moves-trans b.moved (
      put-Moves y t (put_segment y t) b.moved.sound (ground (arith, free)) evolves
        (ground (arith, free)) (ground (arith, free)) (old_held-put_segment y t)
        (ground (arith, free)) (ground (arith, free)));
  told = told;
  same_held = ground (arith, free, b.same_held);
}
  where
    free : get y.segment_id t.held_children ≡ none
    free = ap (get y.segment_id) b.same_held ∙ r.free

    evolves : (z : CaptionSegment) → get y.segment_id t.segments ≡ some z → Evolves z y
    evolves z h =
        let (o, here) = b.told y.segment_id r.before r.stored in
        let same_z : with_translation o r.before ≡ z = ap (λ p. get_or_else p z) (sym here ∙ h) in
        subst (λ w. Evolves w y) same_z
          (subst (Evolves (with_translation o r.before)) (sym r.same) (
            edit-Evolves (with_translation o r.before) (with_translation y.translation r.before)
              r.fresh refl refl refl refl refl refl (omega arith) (λ m. m)))

    told :
        (k : ℕ) (x : CaptionSegment)
        → get k s.segments ≡ some x
        → (o : Option CaptionTranslation) × (get k (put_segment y t).segments
            ≡ some (with_translation o x))
    told k x h = elim (Bool-cases (y.segment_id == k)) [
      | inl here ↦ (
        y.translation,
        ground (
          arith,
          free,
          get-put y.segment_id k y t.segments,
          replaced k x h ((==_iff y.segment_id k).0 here),
        ),
      )
      | inr other ↦
          let (o, kept) = b.told k x h in
          (o, ground (arith, free, kept, get-put y.segment_id k y t.segments))
    ]
      where
        replaced :
            (j : ℕ) (w : CaptionSegment)
            → get j s.segments ≡ some w
            → y.segment_id ≡ j
            → y ≡ with_translation y.translation w
        replaced j w g here =
            r.same
            ∙ ap (λ p. with_translation y.translation (get_or_else p w))
                (sym r.stored ∙ ap (λ i. get i s.segments) here ∙ g)

put_segments-IsBatch :
    (xs : List CaptionSegment) (s t : CaptionStore)
    → All (IsRevision s) xs
    → IsBatch s t
    → IsBatch s (put_segments xs t)
unfolding put_segments
put_segments-IsBatch [] s t h b = b
put_segments-IsBatch (y ∷ ys) s t h b =
    put_segments-IsBatch ys s (put_segment y t) h.1 (put_segment-IsBatch y s t h.0 b)

pub revise_translations-Moves :
    (cs : List CaptionResultCorrection) (generation : ℕ) (s : CaptionStore)
    (r : Bool × CaptionStore)
    → IsSound s
    → revise_translations cs generation s ≡ some r
    → Moves s r.1
unfolding revise_translations with_translation
revise_translations-Moves cs generation s r v e = elim (Bool-cases (generation == s.generation)) [
  | inr other ↦
      subst (λ (p : Bool × CaptionStore). Moves s p.1) {x = (false, s)} {y = r}
        (ground (arith, e, other)) (Moves-refl s v)
  | inl same ↦ batch same (all_revised generation s cs) refl
]
  where
    batch :
        (generation == s.generation) ≡ true
        → (o : Option (List CaptionSegment)) → all_revised generation s cs ≡ o
        → Moves s r.1
    batch same none q =
        subst (λ (p : Bool × CaptionStore). Moves s p.1) {x = (false, s)} {y = r}
          (ground (arith, e, same, q)) (Moves-refl s v)
    batch same (some xs) q =
        let b =
          put_segments-IsBatch xs s s (all_revised-IsRevision generation s cs xs v q) (record {
            moved = Moves-refl s v;
            told = λ k x h. (x.translation, h);
            same_held = refl;
          }) in
        subst (λ (p : Bool × CaptionStore). Moves s p.1)
          {x = (true, note (results_revised generation cs) true (put_segments xs s))} {y = r}
          (ground (arith, e, same, q))
          (Moves-trans b.moved (note-Moves (results_revised generation cs) true _ b.moved.sound))
