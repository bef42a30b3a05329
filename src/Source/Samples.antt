-- ===== src/Source/Samples.antt =====
-- The theorems about app/utils/text.py and app/streaming/revision.py at small inputs.
use my_vote_server.Base.{
  ◌≡◌, refl, true, false, ◌&&◌, ◌||◌, some, List, [], ◌∷◌, map, leb, ◌==◌, Text,
}
use my_vote_server.Source.Text.{Unicode, tokenize, common_prefix_length}
use my_vote_server.Source.Text.Tiling.{Tiling, tokenize-Tiling}
use my_vote_server.Source.Text.Prefix.{Share, common_prefix_length-Share}
use my_vote_server.Source.Revision.{RevisionSegment, RevisionPlan, plan_revision}
use my_vote_server.Source.Revision.Kept.{IsPlan, plan_revision-IsPlan}

-- Lower-case letters, digits and blanks.
abbrev ascii : Unicode
ascii = record {
  is_space = λ c. c == b' ';
  is_alnum = λ c. leb b'a' c && leb c b'z' || leb b'0' c && leb c b'9';
  is_decimal = λ c. leb b'0' c && leb c b'9';
  is_alpha = λ c. leb b'a' c && leb c b'z';
  is_mark = λ c. false;
}

-- "a it's." and the same text with "b." added.
abbrev old_text : Text
old_text = b'a' ∷ b' ' ∷ b'i' ∷ b't' ∷ 0x27 ∷ b's' ∷ b'.' ∷ []

abbrev new_text : Text
new_text = b'a' ∷ b' ' ∷ b'i' ∷ b'n' ∷ 0x27 ∷ b's' ∷ b'.' ∷ []

tokens_of_old : map (λ t. t.stop) (tokenize ascii old_text) ≡ 1 ∷ 6 ∷ 7 ∷ []
unfolding tokenize
tokens_of_old = refl

tokenize-Tiling_example : Tiling ascii 0 old_text (tokenize ascii old_text)
tokenize-Tiling_example = tokenize-Tiling ascii old_text

abbrev first_words : List Text
first_words = (b'a' ∷ []) ∷ (b'b' ∷ []) ∷ []

abbrev other_words : List (List Text)
other_words = ((b'a' ∷ []) ∷ (b'c' ∷ []) ∷ []) ∷ []

shared_words : common_prefix_length (first_words ∷ other_words) ≡ 1
unfolding common_prefix_length
shared_words = refl

common_prefix_length-Share_example :
    Share (common_prefix_length (first_words ∷ other_words)) first_words other_words
common_prefix_length-Share_example = (common_prefix_length-Share first_words other_words).0

abbrev spans : List RevisionSegment
spans = record { start = 0; stop = 1 } ∷ record { start = 1; stop = 7 } ∷ []

abbrev sample_plan : RevisionPlan
sample_plan = record {
  rollback_segment_index = 1;
  rollback_char_end = 1;
  replacement_text = b' ' ∷ b'i' ∷ b'n' ∷ 0x27 ∷ b's' ∷ b'.' ∷ [];
  changed = true;
}

planned_sample : plan_revision ascii old_text new_text spans ≡ some sample_plan
unfolding plan_revision
planned_sample = refl

plan_revision-IsPlan_example : IsPlan ascii old_text new_text spans sample_plan
plan_revision-IsPlan_example =
    plan_revision-IsPlan ascii old_text new_text spans sample_plan planned_sample
