-- ===== src/Engine/Captions/Groups.antt =====
-- CaptionGroupReplacement of MyVote-Speaker-Update/src/myvote_engine/captions.py: parents that the
-- captions of separated lanes replace.
use my_vote_server.Base.{
  ℕ, ◌+◌, Bool, true, false, not, ◌&&◌, ◌||◌, Option, none, some, List, [], ◌∷◌, ◌++◌, map, ltb,
  leb, ◌==◌, if◌then◌else◌, is_some, length, is_empty, any, all, filter, count, contains, distinct,
}
use my_vote_server.Engine.Captions.Segments.{
  SourceState, provisional, stable, Lane, context, separated, CaptionSegment, is_name,
  is_correction, current_translation,
}

pub record CaptionParentRef : Type 0 where
  pub segment_id : ℕ
  pub source_revision : ℕ

pub record CaptionGroupReplacement : Type 0 where
  pub group_id : ℕ
  pub group_revision : ℕ
  pub source_track_id : ℕ
  pub capture_epoch : ℕ
  pub start_ns : ℕ
  pub end_ns : ℕ
  pub parents : List CaptionParentRef
  pub children : List CaptionSegment

unfoldable pub check_parent : CaptionParentRef → Bool
unfolding is_name
check_parent p = is_name p.segment_id && leb 1 p.source_revision

unfoldable pub parent_ids : CaptionGroupReplacement → List ℕ
parent_ids g = map (λ p. p.segment_id) g.parents

unfoldable pub child_ids : CaptionGroupReplacement → List ℕ
child_ids g = map (λ c. c.segment_id) g.children

-- `value == own` for an optional value.
unfoldable pub is_just : ℕ → Option ℕ → Bool
is_just k none = false
is_just k (some j) = j == k

unfoldable pub is_stable : SourceState → Bool
is_stable stable = true
is_stable provisional = false

unfoldable pub same_lane : Lane → Lane → Bool
same_lane (context a) (context b) = a == b
same_lane (context a) (separated b) = false
same_lane (separated a) (context b) = false
same_lane (separated a) (separated b) = a == b

unfoldable pub in_lane : Lane → CaptionSegment → Bool
unfolding same_lane
in_lane l c = elim c.lane_id [ none ↦ false | some m ↦ same_lane m l ]

unfoldable pub is_context : Lane → Bool
is_context (context a) = true
is_context (separated a) = false

unfoldable pub in_context : CaptionSegment → Bool
unfolding is_context
in_context c = elim c.lane_id [ none ↦ false | some l ↦ is_context l ]

-- The capture, the time and the lineage of a child.
unfoldable pub fits_group : CaptionGroupReplacement → CaptionSegment → Bool
unfolding is_correction is_just is_stable parent_ids
fits_group g c =
    is_correction c.delivery_class
    && is_just g.source_track_id c.source_track_id
    && is_just g.capture_epoch c.capture_epoch
    && is_just g.group_id c.separation_group_id
    && is_stable c.source_state
    && is_empty c.superseded_by
    && not c.speaker_manual
    && all (λ p. contains p (parent_ids g)) c.parent_segment_ids
    && leb g.start_ns c.start_ns
    && leb c.end_ns g.end_ns
    && not (c.track_id == g.source_track_id)

unfoldable pub has_sound_translation : CaptionSegment → Bool
unfolding current_translation
has_sound_translation c = not (is_some c.translation) || is_some (current_translation c)

-- One track for each lane, as the loop over the children fills the dictionary; `none` is its error.
unfoldable pub track_of : Lane → List (Lane × ℕ) → Option ℕ
unfolding same_lane
track_of l [] = none
track_of l ((m, t) ∷ lanes) = let rest = track_of l lanes in if same_lane m l then some t else rest

unfoldable pub add_lane : CaptionSegment → List (Lane × ℕ) → Option (List (Lane × ℕ))
unfolding track_of
add_lane c lanes = elim c.lane_id [
  | none ↦ none
  | some l ↦ elim (track_of l lanes) [
    | none ↦ some (lanes ++ (l, c.track_id) ∷ [])
    | some t ↦ if t == c.track_id then some lanes else none
  ]
]

unfoldable pub lanes_of : List CaptionSegment → List (Lane × ℕ) → Option (List (Lane × ℕ))
unfolding add_lane
lanes_of [] lanes = some lanes
lanes_of (c ∷ cs) lanes = elim (add_lane c lanes) [ none ↦ none | some lanes' ↦ lanes_of cs lanes' ]

unfoldable pub overlaps : CaptionSegment → CaptionSegment → Bool
overlaps a b = ltb a.start_ns b.end_ns && ltb b.start_ns a.end_ns

-- `sorted(..., key=start_ns)`, which keeps the order of equal keys.
unfoldable pub insert_by_start : CaptionSegment → List CaptionSegment → List CaptionSegment
insert_by_start c [] = c ∷ []
insert_by_start c (d ∷ ds) =
    let rest = insert_by_start c ds in if leb c.start_ns d.start_ns then c ∷ d ∷ ds else d ∷ rest

unfoldable pub by_start : List CaptionSegment → List CaptionSegment
unfolding insert_by_start
by_start [] = []
by_start (c ∷ cs) = insert_by_start c (by_start cs)

unfoldable pub is_sequential : List CaptionSegment → Bool
is_sequential [] = true
is_sequential (c ∷ []) = true
is_sequential (c ∷ (d ∷ ds)) = leb c.end_ns d.start_ns && is_sequential (d ∷ ds)

-- The checks on the lanes as a whole.
unfoldable pub check_lanes : CaptionGroupReplacement → List (Lane × ℕ) → Bool
unfolding is_context in_context in_lane overlaps by_start is_sequential parent_ids
check_lanes g lanes =
    count (λ l. not (is_context l.0)) lanes == 2
    && leb (count (λ l. is_context l.0) lanes) 1
    && distinct (map (λ l. l.1) lanes)
    && all (λ p. any (λ c. contains p c.parent_segment_ids) g.children) (parent_ids g)
    && all (λ c. not (in_context c) || all (λ d. in_context d || not (overlaps c d)) g.children)
        g.children
    && all (λ l. is_sequential (by_start (filter (in_lane l.0) g.children))) lanes

-- `encoded_bytes` is the size of the group's JSON, which the standard library writes.
unfoldable pub check_group : (CaptionGroupReplacement → ℕ) → CaptionGroupReplacement → Bool
unfolding is_name check_parent parent_ids child_ids fits_group has_sound_translation lanes_of
    check_lanes
check_group encoded_bytes g =
    is_name g.group_id
    && is_name g.source_track_id
    && is_name g.capture_epoch
    && leb 1 g.group_revision
    && leb (g.start_ns + 1) g.end_ns
    && leb 1 (length g.parents)
    && leb (length g.parents) 16
    && all check_parent g.parents
    && leb 2 (length g.children)
    && leb (length g.children) 32
    && distinct (parent_ids g)
    && distinct (child_ids g)
    && not (any (λ p. contains p (child_ids g)) (parent_ids g))
    && all (fits_group g) g.children
    && all has_sound_translation g.children
    && (elim (lanes_of g.children []) [ none ↦ false | some lanes ↦ check_lanes g lanes ])
    && leb (encoded_bytes g) 65536
