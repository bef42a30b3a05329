-- ===== src/Context/Glossary.antt =====
-- app/context/glossary.py, matching_entries: the glossary entries that a text has to do with. `fold`
-- is str.casefold.
pub mod Selection
use my_vote_server.Base.{
  ℕ, ◌-◌, Bool, true, false, not, ◌&&◌, ◌||◌, Option, none, some, List, [], ◌∷◌, ◌++◌, ltb, leb,
  ◌==◌, if◌then◌else◌, length, drop, get_elem?, Text, starts_with,
}
use my_vote_server.Source.Text.{Unicode}
use my_vote_server.Context.{utf8_length}

unfoldable pub latin_word : Unicode → ℕ → Bool
latin_word u c = ltb c 128 && (u.is_alnum c || c == b'_')

unfoldable pub last_of : ℕ → Text → ℕ
last_of c [] = c
last_of c (d ∷ text) = last_of d text

-- Whether a character and its neighbour in the source, if there is one, are not one word.
unfoldable pub apart : Unicode → ℕ → Option ℕ → Bool
unfolding latin_word
apart u c none = true
apart u c (some neighbour) = not (latin_word u c) || not (latin_word u neighbour)

-- Whether the folded key stands at the head of the rest of the source, as a word.
unfoldable pub stands : Unicode → ℕ → ℕ → Text → Option ℕ → Text → Bool
unfolding apart
stands u first last folded_key before rest =
    starts_with rest folded_key
    && apart u first before
    && apart u last (get_elem? (drop (length folded_key) rest) 0)

-- The loop over `find`, which tries each place of the source.
unfoldable pub search : Unicode → ℕ → ℕ → Text → Option ℕ → Text → Bool
unfolding stands
search u first last folded_key before [] = stands u first last folded_key before []
search u first last folded_key before (c ∷ rest) =
    stands u first last folded_key before (c ∷ rest) || search u first last folded_key (some c) rest

-- `matches`; an empty key, which raises an IndexError, is none.
unfoldable pub matches : Unicode → (Text → Text) → Text → Text → Option Bool
unfolding search last_of
matches u fold source [] = none
matches u fold source (c ∷ key) =
    some (search u c (last_of c key) (fold (c ∷ key)) none (fold source))

unfoldable pub precedes : Text → Text → Bool
precedes [] b = true
precedes (x ∷ a) [] = false
precedes (x ∷ a) (y ∷ b) = ltb x y || x == y && precedes a b

-- The order of the entries: longer keys first, and then by the key.
unfoldable pub insert_entry : Text × Text → List (Text × Text) → List (Text × Text)
unfolding precedes
insert_entry e [] = e ∷ []
insert_entry e (d ∷ ds) =
    let rest = insert_entry e ds in
    if ltb (length d.0) (length e.0) || length d.0 == length e.0 && precedes e.0 d.0
    then e ∷ d ∷ ds
    else d ∷ rest

unfoldable pub sort_entries : List (Text × Text) → List (Text × Text)
unfolding insert_entry
sort_entries [] = []
sort_entries (e ∷ es) = insert_entry e (sort_entries es)

unfoldable pub cost_of : Text × Text → ℕ
cost_of e = utf8_length (e.0 ++ e.1)

-- The loop over the entries: none is the IndexError of an empty key.
unfoldable pub select : (Text → Option Bool) → ℕ → List (Text × Text) → Option (List (Text × Text))
unfolding cost_of
select test budget [] = some []
select test budget (e ∷ es) =
    let skipped = select test budget es in
    let rest = select test (budget - cost_of e) es in
    if leb (cost_of e) budget
    then (elim (test e.0) [
      | none ↦ none
      | some false ↦ skipped
      | some true ↦ elim rest [ none ↦ none | some chosen ↦ some (e ∷ chosen) ]
    ])
    else skipped

unfoldable pub matching_entries :
    Unicode → (Text → Text) → Text → List (Text × Text) → ℕ → Option (List (Text × Text))
unfolding matches select sort_entries
matching_entries u fold source entries budget =
    select (matches u fold source) budget (sort_entries entries)
