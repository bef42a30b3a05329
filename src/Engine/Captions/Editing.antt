-- ===== src/Engine/Captions/Editing.antt =====
-- The methods of a CaptionStore that change one caption let it evolve:
-- MyVote-Speaker-Update/src/myvote_engine/captions.py.
use my_vote_server.Source.Text.{Unicode}
use my_vote_server.Base.{
  ℕ, ◌<◌, ◌≡◌, refl, sym, ap, subst, ◌∙◌, inl, inr, Bool, true, false, not, ◌||◌, Option, none,
  some, List, arith, leb, ◌==◌, ==_iff, Bool-cases, if_ind, Option-cases, get_or_else, is_empty,
  Text, get, put, has,
}
use my_vote_server.Engine.Captions.Segments.{CaptionTranslation, CaptionSegment}
use my_vote_server.Engine.Captions.Replacing.{old_held}
use my_vote_server.Engine.Captions.Store.{
  segment_superseded, CaptionStore, note, lookup_segment, put_segment, inherit, store_source,
  answer_source, upsert_source, refuses_translation, answer_translation, apply_translation,
  set_provider_generation, SpeakerUpdate, speaker_payload, refuses_speaker, assign, answer_speaker,
  update_speaker, set_speaker_alias, answer_supersede, supersede_segment,
}
use my_vote_server.Engine.Captions.Evolution.{
  Evolves, edit-Evolves, IsSound, Moves, Moves-refl, Moves-trans, same-Moves, note-Moves, put-Moves,
  find_child-id, old_held-put_segment,
}

-- What `lookup_segment` found is written back, changed.
put_segment-Moves :
    (k : ℕ) (x y : CaptionSegment) (s : CaptionStore)
    → IsSound s
    → lookup_segment k s ≡ some x
    → Evolves x y
    → Moves s (put_segment y s)
unfolding lookup_segment put_segment has
put_segment-Moves k x y s v e evolves = elim (Option-cases (get k s.held_children)) [
  | inl none_held ↦
      let found : get k s.segments ≡ some x = ground arith in
      let here : y.segment_id ≡ k = evolves.same_id ∙ v.keyed k x found in
      let free : get y.segment_id s.held_children ≡ none =
        ap (λ i. get i s.held_children) here ∙ none_held in
      put-Moves y s (put_segment y s) v (ground (arith, free))
        (λ z h. subst (λ w. Evolves w y) (same_value found here z h) evolves) (ground (arith, free))
        (ground (arith, free)) (old_held-put_segment y s) (ground (arith, free))
        (ground (arith, free))
  | inr (gid, is_held) ↦
      let here : y.segment_id ≡ k = evolves.same_id ∙ child_id gid is_held in
      let taken : get y.segment_id s.held_children ≡ some gid =
        ap (λ i. get i s.held_children) here ∙ is_held in
      same-Moves s (put_segment y s) v (ground (arith, taken)) (ground (arith, taken))
        (old_held-put_segment y s) (ground (arith, taken)) (ground (arith, taken))
]
  where
    same_value :
        get k s.segments ≡ some x
        → y.segment_id ≡ k
        → (z : CaptionSegment) → get y.segment_id s.segments ≡ some z
        → x ≡ z
    same_value found here z h =
        let same : some x ≡ some z = sym found ∙ ap (λ i. get i s.segments) (sym here) ∙ h in
        ap (λ o. get_or_else o x) same

    child_id : (gid : ℕ) → get k s.held_children ≡ some gid → x.segment_id ≡ k
    child_id gid is_held = elim (Option-cases (get gid s.groups)) [
      | inl missing ↦ absurd (ground arith)
      | inr (g, there) ↦ find_child-id k g.children x (ground arith)
    ]

answer_translation-Moves :
    (k : ℕ) (t : CaptionTranslation) (s : CaptionStore) (o : Option CaptionSegment)
    → IsSound s
    → lookup_segment k s ≡ o
    → Moves s (answer_translation k t s o).1
unfolding answer_translation refuses_translation
answer_translation-Moves k t s none v e = Moves-refl s v
answer_translation-Moves k t s (some x) v e =
    if_ind (λ (r : Bool × CaptionStore). Moves s r.1) (refuses_translation k t s x) _ _
      (λ f. Moves-refl s v)
      (λ f.
        let moved =
          put_segment-Moves k x (record x { translation = some t }) s v e
            (edit-Evolves x (record x { translation = some t }) (ground (arith, f)) refl refl refl
              refl refl refl (omega arith) (λ m. m)) in
        Moves-trans moved (note-Moves _ t.completed _ moved.sound))

pub apply_translation-Moves :
    (u : Unicode) (k revision generation : ℕ) (text : Text) (language : ℕ) (completed : Bool)
    (s : CaptionStore) (r : Bool × CaptionStore)
    → IsSound s
    → apply_translation u k revision generation text language completed s ≡ some r
    → Moves s r.1
unfolding apply_translation
apply_translation-Moves u k revision generation text language completed s r v e =
    subst (λ (p : Bool × CaptionStore). Moves s p.1)
      {x = answer_translation k t s (lookup_segment k s)} {y = r} (ground arith)
      (answer_translation-Moves k t s (lookup_segment k s) v refl)
  where
    t : CaptionTranslation
    t = record {
      source_revision = revision;
      provider_generation = generation;
      target_language = language;
      text = text;
      completed = completed;
      result_revision = 1;
    }

answer_speaker-Moves :
    (w : SpeakerUpdate) (s : CaptionStore) (o : Option CaptionSegment)
    → IsSound s
    → lookup_segment w.segment_id s ≡ o
    → Moves s (answer_speaker w s o).1
unfolding answer_speaker refuses_speaker assign
answer_speaker-Moves w s none v e = Moves-refl s v
answer_speaker-Moves w s (some x) v e =
    if_ind (λ (r : Bool × CaptionStore). Moves s r.1) (refuses_speaker w s x) _ _
      (λ f. Moves-refl s v)
      (λ f.
        let moved = put_segment-Moves w.segment_id x (assign w x) s v e (
          edit-Evolves x (assign w x) (ground (arith, f)) refl refl refl refl refl refl
            (ground (arith, f)) (λ m. ground (arith, f, m))) in
        Moves-trans moved (note-Moves (speaker_payload w) true _ moved.sound))

pub update_speaker-Moves :
    (w : SpeakerUpdate) (s : CaptionStore) (r : Bool × CaptionStore)
    → IsSound s
    → update_speaker w s ≡ some r
    → Moves s r.1
unfolding update_speaker
update_speaker-Moves w s r v e =
    subst (λ (p : Bool × CaptionStore). Moves s p.1)
      {x = answer_speaker w s (lookup_segment w.segment_id s)} {y = r} (ground arith)
      (answer_speaker-Moves w s (lookup_segment w.segment_id s) v refl)

store_source-Moves :
    (x : CaptionSegment) (s : CaptionStore)
    → IsSound s
    → ((y : CaptionSegment) → get x.segment_id s.segments ≡ some y → Evolves y x)
    → Moves s (store_source x s).1
unfolding store_source note old_held
store_source-Moves x s v evolves =
    if_ind (λ (r : Bool × CaptionStore). Moves s r.1) (has x.segment_id s.held_children) _ _
      (λ f. Moves-refl s v)
      (λ f. put-Moves x s _ v f evolves refl refl (λ i. refl) (omega arith) (omega arith))

newer-Evolves :
    (y x : CaptionSegment)
    → is_empty y.superseded_by ≡ true
    → x.segment_id ≡ y.segment_id
    → (y.track_id == x.track_id) ≡ true
    → y.source_revision < x.source_revision
    → Evolves y (inherit y x)
unfolding inherit
newer-Evolves y x fresh i t newer = record {
  same_id = i;
  same_track = sym ((==_iff y.track_id x.track_id).0 t);
  source_up = omega (arith, newer);
  same_text = λ e. absurd (omega (arith, newer, e));
  same_start = λ e. absurd (omega (arith, newer, e));
  same_end = λ e. absurd (omega (arith, newer, e));
  speaker_up = omega arith;
  still_manual = λ m. m;
  tombstone = λ h. absurd (ground (arith, h, fresh));
}

answer_source-Moves :
    (x : CaptionSegment) (s : CaptionStore) (o : Option CaptionSegment) (r : Bool × CaptionStore)
    → IsSound s
    → get x.segment_id s.segments ≡ o
    → answer_source x s o ≡ some r
    → Moves s r.1
unfolding answer_source
answer_source-Moves x s none r v e h =
    subst (λ (p : Bool × CaptionStore). Moves s p.1) {x = store_source x s} {y = r} (ground arith)
      (store_source-Moves x s v (λ y f. absurd (ground (arith, e, f))))
answer_source-Moves x s (some y) r v e h =
    elim (Bool-cases (not (is_empty y.superseded_by) || leb x.source_revision y.source_revision)) [
      | inl old ↦
          subst (λ (p : Bool × CaptionStore). Moves s p.1) {x = (false, s)} {y = r}
            (ground (arith, old, h)) (Moves-refl s v)
      | inr new ↦
          subst (λ (p : Bool × CaptionStore). Moves s p.1) {x = store_source (inherit y x) s}
            {y = r} (ground (arith, new, h))
            (store_source-Moves (inherit y x) s v (λ z g.
              subst (λ w. Evolves w (inherit y x)) (ap (λ o. get_or_else o y) (sym e ∙ g))
                (newer-Evolves y x (ground (arith, new)) (sym (v.keyed x.segment_id y e))
                  (ground (arith, new, h)) (ground (arith, new)))))
    ]

pub upsert_source-Moves :
    (x : CaptionSegment) (s : CaptionStore) (r : Bool × CaptionStore)
    → IsSound s
    → upsert_source x s ≡ some r
    → Moves s r.1
unfolding upsert_source
upsert_source-Moves x s r v e =
    answer_source-Moves x s (get x.segment_id s.segments) r v refl (ground arith)

pub set_provider_generation-Moves :
    (generation : ℕ) (s : CaptionStore) (r : Bool × CaptionStore)
    → IsSound s
    → set_provider_generation generation s ≡ some r
    → Moves s r.1
unfolding set_provider_generation note old_held
set_provider_generation-Moves generation s r v e =
    same-Moves s r.1 v (ground arith) (ground arith) (λ i. ground arith) (ground arith)
      (ground arith)

pub set_speaker_alias-Moves :
    (u : Unicode) (k : ℕ) (name : Text) (s : CaptionStore) (r : Bool × CaptionStore)
    → IsSound s
    → set_speaker_alias u k name s ≡ some r
    → Moves s r.1
unfolding set_speaker_alias note old_held
set_speaker_alias-Moves u k name s r v e =
    same-Moves s r.1 v (ground arith) (ground arith) (λ i. ground arith) (ground arith)
      (ground arith)

answer_supersede-Moves :
    (u : Unicode) (k : ℕ) (ids : List ℕ) (s : CaptionStore) (o : Option CaptionSegment)
    (r : Bool × CaptionStore)
    → IsSound s
    → get k s.segments ≡ o
    → answer_supersede u k ids s o ≡ some r
    → Moves s r.1
unfolding answer_supersede note has old_held
answer_supersede-Moves u k ids s none r v e h =
    subst (λ (p : Bool × CaptionStore). Moves s p.1) {x = (false, s)} {y = r} (ground arith)
      (Moves-refl s v)
answer_supersede-Moves u k ids s (some x) r v e h = elim (Bool-cases (is_empty x.superseded_by)) [
  | inr old ↦
      subst (λ (p : Bool × CaptionStore). Moves s p.1) {x = (false, s)} {y = r}
        (ground (arith, old, h)) (Moves-refl s v)
  | inl fresh ↦
      subst (λ (p : Bool × CaptionStore). Moves s p.1) {x = (true, made)} {y = r}
        (ground (arith, fresh, h))
        (put-Moves updated s made v free
          (λ z g.
            subst (λ w. Evolves w updated) (same z g)
              (edit-Evolves x updated fresh refl refl refl refl refl refl (omega arith) (λ m. m)))
          (ap (λ i. put i updated s.segments) (sym here)) refl (λ i. refl) (omega arith)
          (omega arith))
]
  where
    updated : CaptionSegment
    updated = record x { superseded_by = ids }

    here : x.segment_id ≡ k
    here = v.keyed k x e

    same : (z : CaptionSegment) → get x.segment_id s.segments ≡ some z → x ≡ z
    same z g = ap (λ o. get_or_else o x) (sym e ∙ ap (λ i. get i s.segments) (sym here) ∙ g)

    free : has x.segment_id s.held_children ≡ false
    free = elim (Bool-cases (has x.segment_id s.held_children)) [
      | inr f ↦ f
      | inl t ↦ absurd (ground (arith, v.apart x.segment_id t, e, here))
    ]

    made : CaptionStore
    made = note (segment_superseded k ids) true (record s { segments = put k updated s.segments })

pub supersede_segment-Moves :
    (u : Unicode) (k : ℕ) (ids : List ℕ) (s : CaptionStore) (r : Bool × CaptionStore)
    → IsSound s
    → supersede_segment u k ids s ≡ some r
    → Moves s r.1
unfolding supersede_segment
supersede_segment-Moves u k ids s r v e =
    answer_supersede-Moves u k ids s (get k s.segments) r v refl (ground arith)
