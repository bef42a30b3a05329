-- ===== src/Source/Text/Tiling.antt =====
-- The tokens of app/utils/text.py tile their text.
use my_vote_server.Base.{
  ℕ, zero, suc, ◌+◌, ◌≤◌, ◌<◌, ◌≡◌, sym, ap, Bool, true, false, ◌&&◌, List, [], ◌∷◌, ◌++◌, arith,
  if_ind, length, take, drop, take-append-drop, length-take, length-drop, Text,
}
use my_vote_server.Source.Text.{
  Unicode, TextToken, cluster_tail, is_word, joins_word, still_number, word_tail, token_length,
  tokens_from, tokenize,
}

-- The tokens stand in their order in the text, from a position on: what lies between them is white
-- space, each is the text of its own span, and each begins with a code point that is none.
pub data Tiling (u : Unicode) : ℕ → Text → List TextToken → Type 0 where
  ended : (p : ℕ) → Tiling u p [] []
  space :
      (p c : ℕ) (rest : Text) (ts : List TextToken)
      → u.is_space c ≡ true
      → Tiling u (suc p) rest ts
      → Tiling u p (c ∷ rest) ts
  token :
      (p q c : ℕ) (text chunk rest : Text) (ts : List TextToken)
      → u.is_space c ≡ false
      → text ≡ (c ∷ chunk) ++ rest
      → q ≡ p + suc (length chunk)
      → Tiling u q rest ts
      → Tiling u p text (record { text = c ∷ chunk; start = p; stop = q } ∷ ts)

module _ (u : Unicode) where
  cluster_tail-le : (text : Text) → cluster_tail u text ≤ length text
  unfolding cluster_tail
  cluster_tail-le [] = omega arith
  cluster_tail-le (c ∷ []) = ground arith
  cluster_tail-le (c ∷ d ∷ rest) = ground (arith, cluster_tail-le (d ∷ rest), cluster_tail-le rest)

  word_tail-le :
      (fuel : ℕ) (number : Bool) (text : Text) → word_tail u fuel number text ≤ length text
  unfolding word_tail
  word_tail-le zero number text = omega arith
  word_tail-le (suc fuel) number [] = omega arith
  word_tail-le (suc fuel) number (c ∷ []) =
      ground (arith, cluster_tail-le [], word_tail-le fuel (number && u.is_decimal c) [])
  word_tail-le (suc fuel) number (c ∷ d ∷ rest) =
      let n = cluster_tail u (d ∷ rest) in
      let m = cluster_tail u rest in
      let number' = still_number u number c (d ∷ rest) in
      let P = λ (k : ℕ). k ≤ suc (suc (length rest)) in
      if_ind P (is_word u c) _ _
        (λ _. omega (
          arith,
          cluster_tail-le (d ∷ rest),
          word_tail-le fuel (number && u.is_decimal c) (drop n (d ∷ rest)),
          length-drop n (d ∷ rest),
        ))
        (λ _.
          if_ind P (joins_word u number c (d ∷ rest)) _ _
            (λ _. omega (
              arith,
              cluster_tail-le rest,
              word_tail-le fuel number' (drop m rest),
              length-drop m rest,
            ))
            (λ _. omega arith))

  token_length-le : (fuel c : ℕ) (rest : Text) → token_length u fuel c rest ≤ suc (length rest)
  unfolding token_length
  token_length-le fuel c rest =
      let n = cluster_tail u rest in
      ground (
        arith,
        cluster_tail-le rest,
        word_tail-le fuel (u.is_decimal c) (drop n rest),
        length-drop n rest,
      )

  token_length-pos : (fuel c : ℕ) (rest : Text) → 0 < token_length u fuel c rest
  unfolding token_length
  token_length-pos fuel c rest = omega arith

  -- A first token of `n` code points, and the tiling of what is left.
  first_token :
      (n p c : ℕ) (rest : Text) (ts : List TextToken)
      → 0 < n
      → n ≤ suc (length rest)
      → u.is_space c ≡ false
      → Tiling u (p + n) (drop n (c ∷ rest)) ts
      → Tiling u p (c ∷ rest) (record { text = take n (c ∷ rest); start = p; stop = p + n } ∷ ts)
  first_token zero p c rest ts some_text fits not_space more = absurd (omega arith)
  first_token (suc k) p c rest ts some_text fits not_space more =
      token p (p + suc k) c (c ∷ rest) (take k rest) (drop k rest) ts not_space
        (ap (◌∷◌ c) (sym (take-append-drop k rest))) (omega (arith, length-take k rest)) more

  tokens_from-Tiling :
      (fuel p : ℕ) (text : Text) → length text ≤ fuel → Tiling u p text (tokens_from u fuel p text)
  unfolding tokens_from
  tokens_from-Tiling zero p [] h = ended p
  tokens_from-Tiling zero p (c ∷ rest) h = absurd (omega arith)
  tokens_from-Tiling (suc fuel) p [] h = ended p
  tokens_from-Tiling (suc fuel) p (c ∷ rest) h =
      let n = token_length u fuel c rest in
      let some_text = token_length-pos fuel c rest in
      let more =
        tokens_from-Tiling fuel (p + n) (drop n (c ∷ rest))
          (omega (arith, length-drop n (c ∷ rest))) in
      if_ind (Tiling u p (c ∷ rest)) (u.is_space c) _ _
        (λ is. space p c rest _ is (tokens_from-Tiling fuel (suc p) rest (omega arith)))
        (λ not_space.
          first_token n p c rest _ some_text (token_length-le fuel c rest) not_space more)

-- `tokenize` always ends, having read the whole text: its tokens are ordered, disjoint, not empty,
-- each holds the text of its own span, and only white space lies outside of them.
pub tokenize-Tiling : (u : Unicode) (text : Text) → Tiling u 0 text (tokenize u text)
unfolding tokenize
tokenize-Tiling u text = tokens_from-Tiling u (length text) 0 text (omega arith)
