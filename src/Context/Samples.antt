-- ===== src/Context/Samples.antt =====
-- The theorems about app/context at small inputs.
use my_vote_server.Base.{ℕ, ◌≡◌, refl, false, none, List, [], ◌∷◌, leb, ◌==◌, Text}
use my_vote_server.Context.{ContextEntry, ContextManager, utf8_width, utf8_length, replace}
use my_vote_server.Source.Text.{Unicode}
use my_vote_server.Context.Glossary.{
  latin_word, last_of, apart, stands, search, matches, precedes, insert_entry, sort_entries,
  cost_of, select, matching_entries,
}
use my_vote_server.Context.Glossary.Selection.{IsSelection, matching_entries-IsSelection}
use my_vote_server.Context.Budget.{IsFilled, replace-IsFilled}

abbrev said : ℕ → ContextEntry
said n = record { segment_id = n; source = b'a' ∷ []; translation = b'b' ∷ []; speaker_id = none }

abbrev two_segments : ContextManager
two_segments = record { max_segments = 2; max_tokens = 100; entries = [] }

kept_two : (replace (said 1 ∷ said 2 ∷ said 3 ∷ []) two_segments).entries ≡ said 2 ∷ said 3 ∷ []
unfolding replace
kept_two = refl

replace-IsFilled_example :
    IsFilled 2 100
      (said 1 ∷ said 2 ∷ said 3 ∷ [])
      (replace (said 1 ∷ said 2 ∷ said 3 ∷ []) two_segments).entries
replace-IsFilled_example = replace-IsFilled (said 1 ∷ said 2 ∷ said 3 ∷ []) two_segments

abbrev plain : Unicode
plain = record {
  is_space = λ c. c == b' ';
  is_alnum = λ c. leb b'a' c;
  is_decimal = λ c. false;
  is_alpha = λ c. leb b'a' c;
  is_mark = λ c. false;
}

-- "ab" is a word of the source; "a" only stands inside of it.
abbrev entries : List (Text × Text)
entries = (b'a' ∷ [], b'x' ∷ []) ∷ (b'a' ∷ b'b' ∷ [], b'y' ∷ []) ∷ []

abbrev chosen : List (Text × Text)
chosen = (b'a' ∷ b'b' ∷ [], b'y' ∷ []) ∷ []

matching_entries-IsSelection_example :
    IsSelection (matches plain (λ t. t) (b'a' ∷ b'b' ∷ [])) 10 entries chosen
unfolding matching_entries select matches search stands apart latin_word last_of sort_entries
    insert_entry precedes cost_of utf8_length utf8_width
matching_entries-IsSelection_example =
    matching_entries-IsSelection plain (λ t. t) (b'a' ∷ b'b' ∷ []) entries 10 chosen refl
