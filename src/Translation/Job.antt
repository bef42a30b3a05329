-- ===== src/Translation/Job.antt =====
-- A translation job: app/translation/worker.py. Texts are lists of code points; the identifiers of
-- a session and of a segment are numbers, since the code only compares them.
use my_vote_server.Base.{ℕ, Bool, ◌&&◌, Option, List, ◌==◌, Text}

pub record TranslationJob : Type 0 where
  pub session_id : ℕ
  pub generation_id : ℕ
  pub sequence : ℕ
  pub source_revision : ℕ
  pub segment_id : ℕ
  pub source : Text
  pub source_language : ℕ
  pub target_language : ℕ
  pub source_context : List Text
  pub translation_context : List Text
  pub glossary : List (Text × Text)
  pub final : Bool
  pub created_at : ℕ
  pub model : Option ℕ
  pub temperature : Option ℕ

unfoldable pub same_segment : TranslationJob → TranslationJob → Bool
same_segment left right =
    left.session_id == right.session_id
    && left.generation_id == right.generation_id
    && left.segment_id == right.segment_id
