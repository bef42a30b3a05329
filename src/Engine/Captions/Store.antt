-- ===== src/Engine/Captions/Store.antt =====
-- CaptionStore of MyVote-Speaker-Update/src/myvote_engine/captions.py. Each method holds the
-- store's lock, so it is one step. A `none` is the method's ValueError, which comes before any
-- change; the tests of a value's type are left out.
use my_vote_server.Base.{
  ℕ, ◌+◌, Bool, true, false, not, ◌&&◌, ◌||◌, Option, none, some, List, [], ◌∷◌, ◌++◌, map, ltb,
  leb, ◌==◌, if◌then◌else◌, is_some, length, is_empty, Text, text_eq, starts_with, distinct, Dict,
  get, put, has,
}
use my_vote_server.Source.Text.{Unicode}
use my_vote_server.Engine.Captions.Segments.{
  DeliveryClass, Lane, CaptionTranslation, CaptionSegment, is_text, is_name, is_name_or_none,
  check_translation, is_correction, check_segment, current_translation, CaptionResultCorrection,
}
use my_vote_server.Engine.Captions.Groups.{CaptionGroupReplacement, same_lane}

-- The payload of a journal entry, which `_record` writes as JSON.
pub data Payload : Type 0 where
  transcript_updated : CaptionSegment → Payload
  translation_preview translation_completed : ℕ → CaptionTranslation → Payload
  provider_updated : ℕ → Payload
  results_revised : ℕ → List CaptionResultCorrection → Payload
  speaker_updated speaker_override : ℕ → Option ℕ → ℕ → Option ℕ → Payload
  group_held group_replaced : CaptionGroupReplacement → Payload
  alias_updated : ℕ → Text → Payload
  segment_superseded : ℕ → List ℕ → Payload

pub record CaptionChange : Type 0 where
  pub event_seq : ℕ
  pub payload : Payload

pub record CaptionStore : Type 0 where
  pub session_id : ℕ
  pub generation : ℕ
  pub revision : ℕ
  pub segments : Dict CaptionSegment
  pub aliases : Dict Text
  pub changes : List CaptionChange
  pub groups : Dict CaptionGroupReplacement
  pub held_groups : List ℕ
  pub held_children : Dict ℕ

-- `__init__`.
unfoldable pub make : ℕ → ℕ → CaptionStore
make session_id generation = record {
  session_id = session_id;
  generation = generation;
  revision = 0;
  segments = [];
  aliases = [];
  changes = [];
  groups = [];
  held_groups = [];
  held_children = [];
}

-- `_record`, which keeps the entry or only counts the revision.
unfoldable pub note : Payload → Bool → CaptionStore → CaptionStore
note payload retain s =
    let revision = s.revision + 1 in
    record s {
      revision = revision;
      changes =
          if retain
          then s.changes ++ record { event_seq = revision; payload = payload } ∷ []
          else s.changes;
    }

unfoldable pub find_child : ℕ → List CaptionSegment → Option CaptionSegment
find_child k [] = none
find_child k (c ∷ cs) = let rest = find_child k cs in if c.segment_id == k then some c else rest

-- `_lookup_segment`: a held child, or a segment of the projection.
unfoldable pub lookup_segment : ℕ → CaptionStore → Option CaptionSegment
unfolding get find_child
lookup_segment k s = elim (get k s.held_children) [
  | none ↦ get k s.segments
  | some gid ↦ elim (get gid s.groups) [ none ↦ none | some g ↦ find_child k g.children ]
]

unfoldable pub put_child : CaptionSegment → List CaptionSegment → List CaptionSegment
put_child x [] = []
put_child x (c ∷ cs) =
    let rest = put_child x cs in if c.segment_id == x.segment_id then x ∷ rest else c ∷ rest

-- `_put_segment`. The group that is made of the new children is not checked for its size again, where
-- the source may raise a ValueError.
unfoldable pub put_segment : CaptionSegment → CaptionStore → CaptionStore
unfolding get put put_child
put_segment x s = elim (get x.segment_id s.held_children) [
  | none ↦ record s { segments = put x.segment_id x s.segments }
  | some gid ↦ elim (get gid s.groups) [
    | none ↦ s
    | some g ↦ record s {
      groups = put gid (record g { children = put_child x g.children }) s.groups;
    }
  ]
]

unfoldable pub same_option : Option ℕ → Option ℕ → Bool
same_option none none = true
same_option none (some b) = false
same_option (some a) none = false
same_option (some a) (some b) = a == b

unfoldable pub same_lane_id : Option Lane → Option Lane → Bool
unfolding same_lane
same_lane_id none none = true
same_lane_id none (some b) = false
same_lane_id (some a) none = false
same_lane_id (some a) (some b) = same_lane a b

unfoldable pub same_delivery : DeliveryClass → DeliveryClass → Bool
unfolding is_correction
same_delivery a b = if is_correction a then is_correction b else not (is_correction b)

unfoldable pub same_lineage : CaptionSegment → CaptionSegment → Bool
unfolding same_option same_lane_id same_delivery
same_lineage a b =
    same_option a.source_track_id b.source_track_id
    && same_option a.capture_epoch b.capture_epoch
    && same_option a.separation_group_id b.separation_group_id
    && same_lane_id a.lane_id b.lane_id
    && text_eq a.parent_segment_ids b.parent_segment_ids
    && same_delivery a.delivery_class b.delivery_class

-- The stored source with the speaker and the translation of the segment before.
unfoldable pub inherit : CaptionSegment → CaptionSegment → CaptionSegment
inherit current x = record x {
  speaker_id = current.speaker_id;
  speaker_revision = current.speaker_revision;
  speaker_manual = current.speaker_manual;
  translation = current.translation;
}

unfoldable pub store_source : CaptionSegment → CaptionStore → Bool × CaptionStore
unfolding has put note
store_source x s = if has x.segment_id s.held_children then (false, s) else (
  true,
  note (transcript_updated x) true (record s { segments = put x.segment_id x s.segments }),
)

-- A source for a segment that is there, or not.
unfoldable pub answer_source :
    CaptionSegment → CaptionStore → Option CaptionSegment → Option (Bool × CaptionStore)
unfolding same_lineage inherit store_source
answer_source x s none = some (store_source x s)
answer_source x s (some current) =
    if not (current.track_id == x.track_id) || not (same_lineage current x)
    then none
    else if not (is_empty current.superseded_by) || leb x.source_revision current.source_revision
    then some (false, s)
    else some (store_source (inherit current x) s)

-- `upsert_source`.
unfoldable pub upsert_source : CaptionSegment → CaptionStore → Option (Bool × CaptionStore)
unfolding get answer_source
upsert_source x s =
    if is_some x.translation
      || not (is_empty x.superseded_by)
      || ltb 0 x.speaker_revision
      || x.speaker_manual
    then none
    else answer_source x s (get x.segment_id s.segments)

unfoldable pub same_request : CaptionTranslation → CaptionTranslation → Bool
same_request a b =
    a.source_revision == b.source_revision
    && a.provider_generation == b.provider_generation
    && a.target_language == b.target_language

-- A result of the same request as the one before is dropped when that one is complete, when they
-- are equal, or when a preview does not extend it. Both are of one request, so they are equal when
-- text, completion and result revision are.
unfoldable pub is_superfluous : CaptionTranslation → Option CaptionTranslation → Bool
unfolding same_request
is_superfluous t none = false
is_superfluous t (some old) =
    same_request old t
    && (old.completed
        || not t.completed && text_eq t.text old.text && t.result_revision == old.result_revision
        || not t.completed && not (starts_with t.text old.text))

unfoldable pub refuses_translation : ℕ → CaptionTranslation → CaptionStore → CaptionSegment → Bool
unfolding is_superfluous has
refuses_translation k t s current =
    not (is_empty current.superseded_by)
    || not (t.source_revision == current.source_revision)
    || not (t.target_language == current.target_language)
    || not (t.provider_generation == s.generation)
    || is_superfluous t current.translation
    || has k s.held_children && not t.completed

unfoldable pub answer_translation :
    ℕ → CaptionTranslation → CaptionStore → Option CaptionSegment → Bool × CaptionStore
unfolding refuses_translation put_segment note
answer_translation k t s none = (false, s)
answer_translation k t s (some current) =
    if refuses_translation k t s current then (false, s) else (
      true,
      note (if t.completed then translation_completed k t else translation_preview k t) t.completed
          (put_segment (record current { translation = some t }) s),
    )

-- `apply_translation`: the incoming translation is the first result of its source.
unfoldable pub apply_translation :
    Unicode → ℕ → ℕ → ℕ → Text → ℕ → Bool → CaptionStore → Option (Bool × CaptionStore)
unfolding check_translation lookup_segment answer_translation
apply_translation u k revision generation text language completed s =
    let t : CaptionTranslation = record {
      source_revision = revision;
      provider_generation = generation;
      target_language = language;
      text = text;
      completed = completed;
      result_revision = 1;
    } in
    if check_translation u t then some (answer_translation k t s (lookup_segment k s)) else none

-- `set_provider_generation`.
unfoldable pub set_provider_generation : ℕ → CaptionStore → Option (Bool × CaptionStore)
unfolding note
set_provider_generation generation s =
    if ltb generation s.generation
    then none
    else if generation == s.generation
    then some (false, s)
    else some (true, note (provider_updated generation) true (record s { generation = generation }))

-- The revised segment of a correction; `none` rejects the batch.
unfoldable pub revise_result :
    ℕ → CaptionResultCorrection → CaptionSegment → Option CaptionTranslation → Option CaptionSegment
revise_result generation c current none = none
revise_result generation c current (some t) =
    if not (t.provider_generation == generation)
      || not (t.result_revision == c.based_on_result_revision)
      || text_eq c.text t.text
    then none
    else some (record current {
      translation = some (record t { text = c.text; result_revision = t.result_revision + 1 });
    })

unfoldable pub revise_segment :
    ℕ → CaptionStore → CaptionResultCorrection → Option CaptionSegment → Option CaptionSegment
unfolding has current_translation revise_result
revise_segment generation s c none = none
revise_segment generation s c (some current) =
    if not (is_empty current.superseded_by)
      || current.speaker_manual
      || has c.segment_id s.held_children
      || not (current.source_revision == c.source_revision)
    then none
    else revise_result generation c current (current_translation current)

unfoldable pub revised : ℕ → CaptionStore → CaptionResultCorrection → Option CaptionSegment
unfolding lookup_segment revise_segment
revised generation s c = revise_segment generation s c (lookup_segment c.segment_id s)

unfoldable pub all_revised :
    ℕ → CaptionStore → List CaptionResultCorrection → Option (List CaptionSegment)
unfolding revised
all_revised generation s [] = some []
all_revised generation s (c ∷ cs) =
    let rest = all_revised generation s cs in
    elim (revised generation s c) [
      | none ↦ none
      | some x ↦ elim rest [ none ↦ none | some xs ↦ some (x ∷ xs) ]
    ]

unfoldable pub put_segments : List CaptionSegment → CaptionStore → CaptionStore
unfolding put_segment
put_segments [] s = s
put_segments (x ∷ xs) s = put_segments xs (put_segment x s)

-- `revise_translations`.
unfoldable pub revise_translations :
    List CaptionResultCorrection → ℕ → CaptionStore → Option (Bool × CaptionStore)
unfolding all_revised put_segments note
revise_translations cs generation s =
    if is_empty cs || ltb 2 (length cs) || not (distinct (map (λ c. c.segment_id) cs))
    then none
    else if not (generation == s.generation)
    then some (false, s)
    else elim (all_revised generation s cs) [
      | none ↦ some (false, s)
      | some xs ↦ some (true, note (results_revised generation cs) true (put_segments xs s))
    ]

-- What `update_speaker` is called with.
pub record SpeakerUpdate : Type 0 where
  pub segment_id : ℕ
  pub speaker_id : Option ℕ
  pub speaker_revision : ℕ
  pub based_on_source_revision : Option ℕ
  pub manual : Bool

unfoldable pub is_outdated_base : Option ℕ → CaptionSegment → Bool
is_outdated_base none x = false
is_outdated_base (some r) x = not (r == x.source_revision)

unfoldable pub speaker_payload : SpeakerUpdate → Payload
speaker_payload w =
    if w.manual
    then speaker_override w.segment_id w.speaker_id w.speaker_revision w.based_on_source_revision
    else speaker_updated w.segment_id w.speaker_id w.speaker_revision w.based_on_source_revision

unfoldable pub refuses_speaker : SpeakerUpdate → CaptionStore → CaptionSegment → Bool
unfolding has is_outdated_base
refuses_speaker w s current =
    not (is_empty current.superseded_by)
    || w.manual && has w.segment_id s.held_children
    || leb w.speaker_revision current.speaker_revision
    || current.speaker_manual && not w.manual
    || is_outdated_base w.based_on_source_revision current

unfoldable pub assign : SpeakerUpdate → CaptionSegment → CaptionSegment
assign w current = record current {
  speaker_id = w.speaker_id;
  speaker_revision = w.speaker_revision;
  speaker_manual = w.manual;
}

unfoldable pub answer_speaker :
    SpeakerUpdate → CaptionStore → Option CaptionSegment → Bool × CaptionStore
unfolding refuses_speaker assign put_segment note speaker_payload
answer_speaker w s none = (false, s)
answer_speaker w s (some current) =
    if refuses_speaker w s current
    then (false, s)
    else (true, note (speaker_payload w) true (put_segment (assign w current) s))

-- `update_speaker`; its ValueErrors are those of `_integer` and `_text`.
unfoldable pub update_speaker : SpeakerUpdate → CaptionStore → Option (Bool × CaptionStore)
unfolding lookup_segment is_name_or_none answer_speaker
update_speaker w s =
    if ltb w.speaker_revision 1
      || not (is_name_or_none w.speaker_id)
      || not (is_name_or_none w.based_on_source_revision)
    then none
    else some (answer_speaker w s (lookup_segment w.segment_id s))

unfoldable pub same_name : Text → Option Text → Bool
same_name name none = false
same_name name (some old) = text_eq old name

-- `set_speaker_alias`.
unfoldable pub set_speaker_alias : Unicode → ℕ → Text → CaptionStore → Option (Bool × CaptionStore)
unfolding is_name is_text get put note same_name
set_speaker_alias u k name s =
    if not (is_name k) || not (is_text u name)
    then none
    else if same_name name (get k s.aliases)
    then some (false, s)
    else some (true, note (alias_updated k name) true (record s { aliases = put k name s.aliases }))

-- The new tombstone is checked as each segment is, by its `__post_init__`.
unfoldable pub answer_supersede :
    Unicode → ℕ → List ℕ → CaptionStore → Option CaptionSegment → Option (Bool × CaptionStore)
unfolding put check_segment note
answer_supersede u k ids s none = some (false, s)
answer_supersede u k ids s (some current) =
    let updated = record current { superseded_by = ids } in
    if not (is_empty current.superseded_by)
    then some (false, s)
    else if not (check_segment u updated)
    then none
    else some (
      true,
      note (segment_superseded k ids) true (record s { segments = put k updated s.segments }),
    )

-- `supersede_segment`.
unfoldable pub supersede_segment :
    Unicode → ℕ → List ℕ → CaptionStore → Option (Bool × CaptionStore)
unfolding get answer_supersede
supersede_segment u k ids s =
    if is_empty ids then none else answer_supersede u k ids s (get k s.segments)
