-- ===== src/Source/Text/Fuel.antt =====
-- The fuel of the loops of tokenize in app/utils/text.py.
use my_vote_server.Base.{ℕ, suc, ◌+◌, List, ◌∷◌, if◌then◌else◌, take, Text}
use my_vote_server.Source.Text.{Unicode, TextToken, tokens_from}

module _ (u : Unicode) where
  -- A token of some length in front, and what follows it.
  abbrev step_of : ℕ → ℕ → ℕ → ℕ → Text → List TextToken → List TextToken
  step_of f n position c rest next =
      if u.is_space c
      then tokens_from u f (suc position) rest
      else record { text = take n (c ∷ rest); start = position; stop = position + n } ∷ next
