-- ===== src/Source/Revision.antt =====
-- app/streaming/revision.py: which segments a new hypothesis of an utterance invalidates.
pub mod Difference
pub mod Kept
use my_vote_server.Base.{
  ℕ, suc, Bool, true, not, ◌&&◌, Option, none, some, List, [], ◌∷◌, ltb, leb, ◌==◌, if◌then◌else◌,
  get_or_else, length, drop, Text, text_eq,
}
use my_vote_server.Source.Text.{Unicode, TextToken, tokenize}

pub record RevisionSegment : Type 0 where
  pub start : ℕ
  pub stop : ℕ

pub record RevisionPlan : Type 0 where
  pub rollback_segment_index : ℕ
  pub rollback_char_end : ℕ
  pub replacement_text : Text
  pub changed : Bool

-- The check of the spans: in order, disjoint, and within the old text.
pub valid_spans : ℕ → ℕ → List RevisionSegment → Bool
valid_spans limit previous [] = true
valid_spans limit previous (s ∷ rest) =
    leb s.start s.stop && leb s.stop limit && leb previous s.start && valid_spans limit s.stop rest

-- The length of the prefix that two texts share.
pub common_length : Text → Text → ℕ
common_length [] new = 0
common_length (a ∷ old) [] = 0
common_length (a ∷ old) (b ∷ new) = if a == b then suc (common_length old new) else 0

-- The start of the first token that the position lies inside of, or else the position.
pub before_token : ℕ → List TextToken → ℕ
before_token difference [] = difference
before_token difference (t ∷ rest) =
    if ltb t.start difference && ltb difference t.stop
    then t.start
    else before_token difference rest

module _ (u : Unicode) where
  -- Where the new text begins to differ: appending to a word changes the whole word.
  pub first_difference : Text → Text → ℕ
  unfolding common_length before_token
  first_difference old new =
      let difference = common_length old new in
      if difference == length old && ltb (length old) (length new)
      then before_token difference (tokenize u new)
      else difference

-- The position and the start of the first segment that ends behind the difference.
pub first_touched : ℕ → ℕ → List RevisionSegment → Option (ℕ × ℕ)
first_touched difference position [] = none
first_touched difference position (s ∷ rest) =
    let later = first_touched difference (suc position) rest in
    if ltb difference s.stop then some (position, s.start) else later

pub last_stop : List RevisionSegment → ℕ
last_stop [] = 0
last_stop (s ∷ []) = s.stop
last_stop (s ∷ t ∷ rest) = last_stop (t ∷ rest)

-- The segment index and the text position from which the plan rolls back.
pub rollback_point : Bool → ℕ → List RevisionSegment → ℕ × ℕ
unfolding first_touched last_stop
rollback_point changed difference segments =
    let whole : ℕ × ℕ = (length segments, last_stop segments) in
    if changed then get_or_else (first_touched difference 0 segments) whole else whole

-- `plan_revision`; `none` is its ValueError.
unfoldable pub plan_revision : Unicode → Text → Text → List RevisionSegment → Option RevisionPlan
unfolding valid_spans rollback_point first_difference
plan_revision u old new segments =
    if valid_spans (length old) 0 segments
    then (let changed = not (text_eq old new) in
        let (index, boundary) = rollback_point changed (first_difference u old new) segments in
        some (record {
          rollback_segment_index = index;
          rollback_char_end = boundary;
          replacement_text = drop boundary new;
          changed = changed;
        }))
    else none
