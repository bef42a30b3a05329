-- ===== src/Engine/Captions/Samples.antt =====
-- The theorems about MyVote-Speaker-Update/src/myvote_engine/captions.py at small inputs.
use my_vote_server.Base.{
  ℕ, ◌≡◌, refl, true, false, none, some, List, [], ◌∷◌, arith, ◌==◌, Text, get, put, has,
}
use my_vote_server.Source.Text.{Unicode}
use my_vote_server.Engine.Captions.Segments.{
  stable, live, overlap_correction, translation_of, separated, CaptionSegment,
}
use my_vote_server.Engine.Captions.Groups.{CaptionGroupReplacement, check_group}
use my_vote_server.Engine.Captions.Store.{
  CaptionStore, make, note, store_source, answer_source, upsert_source,
}
use my_vote_server.Engine.Captions.Replacing.{validate_group, apply_group, applied, replace_group}
use my_vote_server.Engine.Captions.Evolution.{Grows, IsSound}
use my_vote_server.Engine.Captions.Export.{Offset, later, Cue, shift, cue_of, merged, timestamp}
use my_vote_server.Engine.Captions.Export.Timing.{IsTight, cue_of-IsTight}
use my_vote_server.Engine.Captions.Export.Stamps.{
  is_digit, read_timestamp, read_timestamp-timestamp,
}
use my_vote_server.Engine.Captions.Export.Merging.{IsMerged, merged-IsMerged}
use my_vote_server.Engine.Captions.Histories.{
  hears, replaces, Reach, here, next, make-Reach-IsSound, Reach-Grows,
}

abbrev plain : Unicode
plain = record {
  is_space = λ c. c == b' ';
  is_alnum = λ c. false;
  is_decimal = λ c. false;
  is_alpha = λ c. false;
  is_mark = λ c. false;
}

-- What one speaker said in the mixed recording.
abbrev mixed : CaptionSegment
mixed = record {
  segment_id = 1;
  track_id = 1;
  start_ns = 0;
  end_ns = 2000000;
  source_text = b'h' ∷ b'i' ∷ [];
  source_revision = 1;
  source_state = stable;
  target_language = 1;
  speaker_id = none;
  speaker_revision = 0;
  speaker_manual = false;
  translation = none;
  superseded_by = [];
  source_track_id = some 1;
  capture_epoch = some 5;
  separation_group_id = none;
  lane_id = none;
  parent_segment_ids = [];
  delivery_class = live;
  text_operation = translation_of;
  source_language = none;
}

-- The two lanes that replace it.
abbrev lane : ℕ → CaptionSegment
lane k = record mixed {
  segment_id = k;
  track_id = k;
  separation_group_id = some 9;
  lane_id = some (separated k);
  parent_segment_ids = 1 ∷ [];
  delivery_class = overlap_correction;
}

abbrev lanes : CaptionGroupReplacement
lanes = record {
  group_id = 9;
  group_revision = 1;
  source_track_id = 1;
  capture_epoch = 5;
  start_ns = 0;
  end_ns = 3000000;
  parents = record { segment_id = 1; source_revision = 1 } ∷ [];
  children = lane 2 ∷ lane 3 ∷ [];
}

lanes-checked : check_group (λ g. 900) lanes ≡ true
unfolding check_group
lanes-checked = refl

abbrev empty_store : CaptionStore
empty_store = make 1 0

abbrev stored : CaptionStore
stored = (store_source mixed empty_store).1

abbrev separated_store : CaptionStore
separated_store = apply_group lanes stored

first_call : Reach plain empty_store stored
unfolding upsert_source answer_source make get
first_call = next here (hears mixed (store_source mixed empty_store) refl)

second_call : Reach plain stored separated_store
unfolding replace_group validate_group make store_source note get put has
second_call = next here (replaces lanes 100 false (applied, separated_store) refl)

make-Reach-IsSound_example : IsSound stored
make-Reach-IsSound_example = make-Reach-IsSound plain 1 0 stored first_call

Reach-Grows_example : Grows stored.segments separated_store.segments
Reach-Grows_example = Reach-Grows plain 1 0 stored separated_store first_call second_call

-- A subtitle for a caption that starts and ends within a millisecond, shown half a second later.
abbrev half_second : Offset
half_second = later 500000000

abbrev sample_cue : Cue
sample_cue = record { start_ms = 501; end_ms = 503; body = [] }

cue_of-IsTight_example : IsTight 501500000 502500001 sample_cue
unfolding shift cue_of
cue_of-IsTight_example =
    cue_of-IsTight half_second 1500000 2500001 501500000 502500001 [] sample_cue refl refl refl

-- Two subtitles that overlap, and one that stands alone.
abbrev cue : ℕ → ℕ → Text → Cue
cue start stop body = record { start_ms = start; end_ms = stop; body = body }

abbrev overlapping : List Cue
overlapping = cue 0 3 (b'a' ∷ []) ∷ cue 2 5 (b'b' ∷ []) ∷ cue 7 8 (b'c' ∷ []) ∷ []

merged-IsMerged_example : IsMerged overlapping (merged overlapping)
merged-IsMerged_example =
    merged-IsMerged overlapping (omega arith, (omega arith, (omega arith, tt)))

read_timestamp-timestamp_example : read_timestamp (timestamp 3723004 b',') ≡ 3723004
unfolding is_digit
read_timestamp-timestamp_example = read_timestamp-timestamp 3723004 b',' refl
