-- ===== src/Engine/Captions/Segments.antt =====
-- CaptionTranslation, CaptionSegment and CaptionResultCorrection of
-- MyVote-Speaker-Update/src/myvote_engine/captions.py. Identifiers are numbers that keep the order
-- of the strings, with 0 for the blank string; each `check` is a `__post_init__`, without the tests
-- of a value's type.
use my_vote_server.Base.{
  ℕ, ◌+◌, Bool, true, false, not, ◌&&◌, ◌||◌, Option, none, some, List, ltb, leb, ◌==◌,
  if◌then◌else◌, is_some, length, is_empty, all, Text, contains, distinct,
}
use my_vote_server.Source.Text.{Unicode}

pub data SourceState : Type 0 where
  provisional stable : SourceState

pub data DeliveryClass : Type 0 where
  live overlap_correction : DeliveryClass

pub data TextOperation : Type 0 where
  translation_of transcript_correction : TextOperation

-- The name of a lane: "context:" and a name, or a name of another kind.
pub data Lane : Type 0 where
  context separated : ℕ → Lane

pub record CaptionTranslation : Type 0 where
  pub source_revision : ℕ
  pub provider_generation : ℕ
  pub target_language : ℕ
  pub text : Text
  pub completed : Bool
  pub result_revision : ℕ

pub record CaptionSegment : Type 0 where
  pub segment_id : ℕ
  pub track_id : ℕ
  pub start_ns : ℕ
  pub end_ns : ℕ
  pub source_text : Text
  pub source_revision : ℕ
  pub source_state : SourceState
  pub target_language : ℕ
  pub speaker_id : Option ℕ
  pub speaker_revision : ℕ
  pub speaker_manual : Bool
  pub translation : Option CaptionTranslation
  pub superseded_by : List ℕ
  pub source_track_id : Option ℕ
  pub capture_epoch : Option ℕ
  pub separation_group_id : Option ℕ
  pub lane_id : Option Lane
  pub parent_segment_ids : List ℕ
  pub delivery_class : DeliveryClass
  pub text_operation : TextOperation
  pub source_language : Option ℕ

-- `_text`: not blank, and without a surrogate, which UTF-8 cannot encode.
unfoldable pub is_text : Unicode → Text → Bool
is_text u text = not (all u.is_space text) && all (λ c. ltb c 0xd800 || ltb 0xdfff c) text

-- `_text` of an identifier.
unfoldable pub is_name : ℕ → Bool
is_name k = ltb 0 k

unfoldable pub is_name_or_none : Option ℕ → Bool
unfolding is_name
is_name_or_none none = true
is_name_or_none (some k) = is_name k

unfoldable pub check_translation : Unicode → CaptionTranslation → Bool
unfolding is_text is_name
check_translation u t =
    leb 1 t.source_revision
    && leb 1 t.result_revision
    && is_name t.target_language
    && is_text u t.text

unfoldable pub is_correction : DeliveryClass → Bool
is_correction live = false
is_correction overlap_correction = true

unfoldable pub check_segment : Unicode → CaptionSegment → Bool
unfolding is_text is_name is_name_or_none is_correction
check_segment u s =
    is_name s.segment_id
    && is_name s.track_id
    && is_text u s.source_text
    && is_name s.target_language
    && leb (s.start_ns + 1) s.end_ns
    && leb 1 s.source_revision
    && is_name_or_none s.source_language
    && is_name_or_none s.speaker_id
    && all is_name s.superseded_by
    && not (contains s.segment_id s.superseded_by)
    && is_name_or_none s.source_track_id
    && is_name_or_none s.capture_epoch
    && is_name_or_none s.separation_group_id
    && all is_name s.parent_segment_ids
    && not (contains s.segment_id s.parent_segment_ids)
    && distinct s.parent_segment_ids
    && (not (is_correction s.delivery_class)
        || is_some s.source_track_id
          && is_some s.capture_epoch
          && is_some s.separation_group_id
          && is_some s.lane_id
          && not (is_empty s.parent_segment_ids))

-- `current_translation`: completed, and of the source and the language as they are now.
unfoldable pub is_current : CaptionSegment → CaptionTranslation → Bool
is_current s t =
    t.completed && t.source_revision == s.source_revision && t.target_language == s.target_language

unfoldable pub current_translation : CaptionSegment → Option CaptionTranslation
unfolding is_current
current_translation s = elim s.translation [
  | none ↦ none
  | some t ↦ if is_current s t then some t else none
]

pub record CaptionResultCorrection : Type 0 where
  pub segment_id : ℕ
  pub source_revision : ℕ
  pub based_on_result_revision : ℕ
  pub text : Text

unfoldable pub check_correction : Unicode → CaptionResultCorrection → Bool
unfolding is_text is_name
check_correction u c =
    is_name c.segment_id
    && leb 1 c.source_revision
    && leb 1 c.based_on_result_revision
    && is_text u c.text
    && leb (length c.text) 24000
