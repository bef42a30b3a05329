-- ===== src/Context.antt =====
-- app/context/manager.py: the translated segments that accompany the next one.
pub mod Budget
pub mod Glossary
mod Samples
use my_vote_server.Base.{
  ℕ, ◌+◌, ◌-◌, ◌||◌, Option, none, some, List, [], ◌∷◌, ◌++◌, map, reverse, ltb, leb, if◌then◌else◌,
  get_or_else, length, is_empty, Text,
}

pub record ContextEntry : Type 0 where
  pub segment_id : ℕ
  pub source : Text
  pub translation : Text
  pub speaker_id : Option Text

pub record ContextManager : Type 0 where
  pub max_segments : ℕ
  pub max_tokens : ℕ
  pub entries : List ContextEntry

-- The bytes of a code point, and of a text, in UTF-8.
pub utf8_width : ℕ → ℕ
utf8_width c = if ltb c 0x80 then 1 else if ltb c 0x800 then 2 else if ltb c 0x10000 then 3 else 4

pub utf8_length : Text → ℕ
unfolding utf8_width
utf8_length [] = 0
utf8_length (c ∷ text) = utf8_width c + utf8_length text

pub cost : ContextEntry → ℕ
unfolding utf8_length
cost e = utf8_length (e.source ++ e.translation ++ get_or_else e.speaker_id []) + 32

-- The loop of `replace` over the entries from the last one on.
pub fill : ℕ → ℕ → List ContextEntry → List ContextEntry → List ContextEntry
unfolding cost
fill most budget kept [] = kept
fill most budget kept (e ∷ earlier) =
    let more = fill most (budget - cost e) (e ∷ kept) earlier in
    if leb most (length kept) || ltb budget (cost e) then kept else more

-- `replace`.
pub replace : List ContextEntry → ContextManager → ContextManager
unfolding fill
replace entries m = record m { entries = fill m.max_segments m.max_tokens [] (reverse entries) }

abbrev opening : Text
opening = b'[' ∷ []

abbrev closing : Text
closing = b']' ∷ b' ' ∷ []

-- A source text behind the name of its speaker.
pub spoken : ContextEntry → Text
spoken e = elim e.speaker_id [
  | none ↦ e.source
  | some speaker ↦
      if is_empty speaker then e.source else opening ++ (speaker ++ (closing ++ e.source))
]

-- `snapshot`.
pub snapshot : ContextManager → List Text × List Text
unfolding spoken
snapshot m = (map spoken m.entries, map (λ e. e.translation) m.entries)
