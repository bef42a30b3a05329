-- ===== src/Engine/Captions/Evolution.antt =====
-- How a caption may change: MyVote-Speaker-Update/src/myvote_engine/captions.py.
use my_vote_server.Engine.Captions.Groups.{CaptionGroupReplacement, child_ids}
use my_vote_server.Base.{
  ℕ, ◌≤◌, ◌≡◌, refl, sym, ap, subst, ◌∙◌, inl, inr, Bool, true, false, some, List, [], ◌∷◌, map,
  arith, ◌==◌, ==_iff, Bool-cases, Option-cases, is_empty, contains, Dict, get, put, has, get-put,
  has-put,
}
use my_vote_server.Engine.Captions.Segments.{CaptionSegment}
use my_vote_server.Engine.Captions.Replacing.{old_held}
use my_vote_server.Engine.Captions.Store.{
  Payload, CaptionStore, note, find_child, put_child, put_segment,
}

-- A caption keeps its place in the store and its track; its revisions do not fall; its words and
-- times change only with its source revision; a speaker that a person chose stays chosen by a
-- person; and a tombstone does not change at all.
pub record Evolves (x y : CaptionSegment) : Type 0 where
  pub same_id : y.segment_id ≡ x.segment_id
  pub same_track : y.track_id ≡ x.track_id
  pub source_up : x.source_revision ≤ y.source_revision
  pub same_text : y.source_revision ≡ x.source_revision → y.source_text ≡ x.source_text
  pub same_start : y.source_revision ≡ x.source_revision → y.start_ns ≡ x.start_ns
  pub same_end : y.source_revision ≡ x.source_revision → y.end_ns ≡ x.end_ns
  pub speaker_up : x.speaker_revision ≤ y.speaker_revision
  pub still_manual : x.speaker_manual ≡ true → y.speaker_manual ≡ true
  pub tombstone : is_empty x.superseded_by ≡ false → y ≡ x

pub Evolves-refl : (x : CaptionSegment) → Evolves x x
Evolves-refl x = record {
  same_id = refl;
  same_track = refl;
  source_up = omega arith;
  same_text = λ e. refl;
  same_start = λ e. refl;
  same_end = λ e. refl;
  speaker_up = omega arith;
  still_manual = λ m. m;
  tombstone = λ e. refl;
}

pub Evolves-trans : {x y z : CaptionSegment} → Evolves x y → Evolves y z → Evolves x z
Evolves-trans {x} {y} {z} p q = record {
  same_id = q.same_id ∙ p.same_id;
  same_track = q.same_track ∙ p.same_track;
  source_up = omega (arith, p.source_up, q.source_up);
  same_text = λ e. q.same_text (later e) ∙ p.same_text (early e);
  same_start = λ e. q.same_start (later e) ∙ p.same_start (early e);
  same_end = λ e. q.same_end (later e) ∙ p.same_end (early e);
  speaker_up = omega (arith, p.speaker_up, q.speaker_up);
  still_manual = λ m. q.still_manual (p.still_manual m);
  tombstone = λ e.
      q.tombstone (ap (λ (r : CaptionSegment). is_empty r.superseded_by) (p.tombstone e) ∙ e)
      ∙ p.tombstone e;
}
  where
    later : z.source_revision ≡ x.source_revision → z.source_revision ≡ y.source_revision
    later e = omega (arith, e, p.source_up, q.source_up)

    early : z.source_revision ≡ x.source_revision → y.source_revision ≡ x.source_revision
    early e = omega (arith, e, p.source_up, q.source_up)

-- A caption that is no tombstone, with the same source.
pub edit-Evolves :
    (x y : CaptionSegment)
    → is_empty x.superseded_by ≡ true
    → y.segment_id ≡ x.segment_id
    → y.track_id ≡ x.track_id
    → y.source_revision ≡ x.source_revision
    → y.source_text ≡ x.source_text
    → y.start_ns ≡ x.start_ns
    → y.end_ns ≡ x.end_ns
    → x.speaker_revision ≤ y.speaker_revision
    → (x.speaker_manual ≡ true → y.speaker_manual ≡ true)
    → Evolves x y
edit-Evolves x y fresh i t r text start stop speaker manual = record {
  same_id = i;
  same_track = t;
  source_up = omega (arith, r);
  same_text = λ e. text;
  same_start = λ e. start;
  same_end = λ e. stop;
  speaker_up = speaker;
  still_manual = manual;
  tombstone = λ h. absurd (ground (arith, h, fresh));
}

-- Every caption of the first projection is in the second one, and has evolved.
unfoldable pub Grows : Dict CaptionSegment → Dict CaptionSegment → Type 0
Grows d e =
    (k : ℕ) (x : CaptionSegment)
    → get k d ≡ some x
    → (y : CaptionSegment) × (get k e ≡ some y) × Evolves x y

pub Grows-refl : (d : Dict CaptionSegment) → Grows d d
unfolding Grows
Grows-refl d k x h = (x, h, Evolves-refl x)

pub Grows-trans : (d e f : Dict CaptionSegment) → Grows d e → Grows e f → Grows d f
unfolding Grows
Grows-trans d e f p q k x h =
    let (y, hy, xy) = p k x h in let (z, hz, yz) = q k y hy in (z, hz, Evolves-trans xy yz)

pub put-Grows :
    (k : ℕ) (y : CaptionSegment) (d : Dict CaptionSegment)
    → ((x : CaptionSegment) → get k d ≡ some x → Evolves x y)
    → Grows d (put k y d)
unfolding Grows
put-Grows k y d evolves j x h = elim (Bool-cases (k == j)) [
  | inl e ↦
      let same : k ≡ j = (==_iff k j).0 e in
      (y, ground (arith, get-put k j y d), evolves x (ap (λ i. get i d) same ∙ h))
  | inr e ↦ (x, ground (arith, get-put k j y d), Evolves-refl x)
]

-- A caption stands under its own identifier, no identifier is both of the projection and of a held
-- alternative, and the captions of a held group are listed under the group.
pub record IsSound (s : CaptionStore) : Type 0 where
  pub keyed : (k : ℕ) (x : CaptionSegment) → get k s.segments ≡ some x → x.segment_id ≡ k
  pub apart : (k : ℕ) → has k s.held_children ≡ true → has k s.segments ≡ false
  pub indexed : (gid k : ℕ) → contains k (old_held gid s) ≡ true → get k s.held_children ≡ some gid

-- What a method makes of a sound store.
pub record Moves (s t : CaptionStore) : Type 0 where
  pub sound : IsSound t
  pub grows : Grows s.segments t.segments
  pub generation_up : s.generation ≤ t.generation
  pub revision_up : s.revision ≤ t.revision

pub Moves-refl : (s : CaptionStore) → IsSound s → Moves s s
Moves-refl s v = record {
  sound = v;
  grows = Grows-refl s.segments;
  generation_up = omega arith;
  revision_up = omega arith;
}

pub Moves-trans : {s t r : CaptionStore} → Moves s t → Moves t r → Moves s r
Moves-trans {s} {t} {r} p q = record {
  sound = q.sound;
  grows = Grows-trans s.segments t.segments r.segments p.grows q.grows;
  generation_up = omega (arith, p.generation_up, q.generation_up);
  revision_up = omega (arith, p.revision_up, q.revision_up);
}

still_indexed :
    (s t : CaptionStore)
    → IsSound s
    → t.held_children ≡ s.held_children
    → ((gid : ℕ) → old_held gid t ≡ old_held gid s)
    → (gid k : ℕ) → contains k (old_held gid t) ≡ true
    → get k t.held_children ≡ some gid
still_indexed s t v h o gid k e = ap (get k) h ∙ v.indexed gid k (sym (ap (contains k) (o gid)) ∙ e)

-- The projection and the held alternatives are the same.
pub same-Moves :
    (s t : CaptionStore)
    → IsSound s
    → t.segments ≡ s.segments
    → t.held_children ≡ s.held_children
    → ((gid : ℕ) → old_held gid t ≡ old_held gid s)
    → s.generation ≤ t.generation
    → s.revision ≤ t.revision
    → Moves s t
same-Moves s t v d h o g r = record {
  sound = record {
    keyed = λ k x e. v.keyed k x (sym (ap (get k) d) ∙ e);
    apart = λ k e. ap (has k) d ∙ v.apart k (sym (ap (has k) h) ∙ e);
    indexed = still_indexed s t v h o;
  };
  grows = subst (λ e. Grows s.segments e) (sym d) (Grows-refl s.segments);
  generation_up = g;
  revision_up = r;
}

pub note-Moves : (p : Payload) (b : Bool) (s : CaptionStore) → IsSound s → Moves s (note p b s)
unfolding note old_held
note-Moves p b s v = same-Moves s (note p b s) v refl refl (λ i. refl) (omega arith) (omega arith)

-- One caption of the projection is written, under its own identifier.
pub put-Moves :
    (y : CaptionSegment) (s t : CaptionStore)
    → IsSound s
    → has y.segment_id s.held_children ≡ false
    → ((x : CaptionSegment) → get y.segment_id s.segments ≡ some x → Evolves x y)
    → t.segments ≡ put y.segment_id y s.segments
    → t.held_children ≡ s.held_children
    → ((gid : ℕ) → old_held gid t ≡ old_held gid s)
    → s.generation ≤ t.generation
    → s.revision ≤ t.revision
    → Moves s t
put-Moves y s t v free evolves d h o g r = record {
  sound = record { keyed = keyed; apart = apart; indexed = still_indexed s t v h o };
  grows = subst (λ e. Grows s.segments e) (sym d) (put-Grows y.segment_id y s.segments evolves);
  generation_up = g;
  revision_up = r;
}
  where
    apart : (k : ℕ) → has k t.held_children ≡ true → has k t.segments ≡ false
    apart k e =
        let held_too : has k s.held_children ≡ true = sym (ap (has k) h) ∙ e in
        ap (has k) d
        ∙ ground (arith, has-put y.segment_id k y s.segments, v.apart k held_too, free, held_too)

    keyed : (k : ℕ) (x : CaptionSegment) → get k t.segments ≡ some x → x.segment_id ≡ k
    keyed k x e =
        let e' : get k (put y.segment_id y s.segments) ≡ some x = sym (ap (get k) d) ∙ e in
        elim (Bool-cases (y.segment_id == k)) [
          | inl same ↦ ground (arith, get-put y.segment_id k y s.segments, e')
          | inr other ↦ v.keyed k x (ground (arith, get-put y.segment_id k y s.segments, e'))
        ]

-- `put_segment` of what `lookup_segment` found, changed.
pub find_child-id :
    (k : ℕ) (cs : List CaptionSegment) (x : CaptionSegment)
    → find_child k cs ≡ some x
    → x.segment_id ≡ k
unfolding find_child
find_child-id k [] x e = ground arith
find_child-id k (c ∷ cs) x e = elim (Bool-cases (c.segment_id == k)) [
  | inl t ↦ ground arith
  | inr f ↦ find_child-id k cs x (ground arith)
]

-- A change of a child keeps the identifiers of its group.
pub child_ids-put_child :
    (x : CaptionSegment) (cs : List CaptionSegment)
    → map (λ c. c.segment_id) (put_child x cs) ≡ map (λ c. c.segment_id) cs
unfolding put_child
child_ids-put_child x [] = refl
child_ids-put_child x (c ∷ cs) = ground (arith, child_ids-put_child x cs)

pub old_held-put_segment :
    (y : CaptionSegment) (s : CaptionStore) (gid : ℕ)
    → old_held gid (put_segment y s) ≡ old_held gid s
unfolding put_segment old_held child_ids
old_held-put_segment y s gid = elim (Option-cases (get y.segment_id s.held_children)) [
  | inl none_held ↦ ground (arith, none_held)
  | inr (own, is_held) ↦ elim (Option-cases (get own s.groups)) [
    | inl missing ↦ ground (arith, is_held, missing)
    | inr (g, there) ↦
        let changed : CaptionGroupReplacement = record g { children = put_child y g.children } in
        elim (Bool-cases (own == gid)) [
          | inr other ↦ ground (arith, is_held, there, other, get-put own gid changed s.groups)
          | inl same ↦
              let there_too : get gid s.groups ≡ some g =
                ap (λ i. get i s.groups) (sym ((==_iff own gid).0 same)) ∙ there in
              ground (
                arith,
                is_held,
                there,
                same,
                there_too,
                get-put own gid changed s.groups,
                child_ids-put_child y g.children,
              )
        ]
  ]
]
