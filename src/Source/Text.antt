-- ===== src/Source/Text.antt =====
-- app/utils/text.py: tokens as exact spans of a text, and the prefix that texts share.
pub mod Tiling
pub mod Fuel
pub mod Prefix
use my_vote_server.Base.{
  ℕ, zero, suc, ◌+◌, min, Bool, false, not, ◌&&◌, ◌||◌, Option, none, some, List, [], ◌∷◌, leb,
  ◌==◌, if◌then◌else◌, get_or_else, length, take, drop, get_elem?, all, Text, text_eq,
}

-- What Python knows of a code point. `is_mark` holds of a combining character and of one whose
-- category begins with M.
pub record Unicode : Type 0 where
  pub is_space : ℕ → Bool
  pub is_alnum : ℕ → Bool
  pub is_decimal : ℕ → Bool
  pub is_alpha : ℕ → Bool
  pub is_mark : ℕ → Bool

pub record TextToken : Type 0 where
  pub text : Text
  pub start : ℕ
  pub stop : ℕ

unfoldable pub between : ℕ → ℕ → ℕ → Bool
between lo hi value = leb lo value && leb value hi

unfoldable pub cjk : ℕ → Bool
unfolding between
cjk value =
    between 0x3400 0x9fff value
    || between 0x20000 0x323af value
    || between 0x3040 0x30ff value
    || between 0x31f0 0x31ff value

module _ (u : Unicode) where
  -- A code point that `_cluster_end` adds to the one before it.
  unfoldable pub extends_cluster : ℕ → Bool
  unfolding between
  extends_cluster value =
      u.is_mark value
      || between 0xfe00 0xfe0f value
      || between 0x1f3fb 0x1f3ff value
      || between 0xe0100 0xe01ef value

  -- `_cluster_end`, as the number of code points behind the first one that belong to it. A joiner
  -- takes the next code point with it.
  unfoldable pub cluster_tail : Text → ℕ
  unfolding extends_cluster
  cluster_tail [] = 0
  cluster_tail (c ∷ []) = if extends_cluster c then 1 else 0
  cluster_tail (c ∷ d ∷ rest) =
      let longer = suc (cluster_tail (d ∷ rest)) in
      let joined = suc (suc (cluster_tail rest)) in
      if extends_cluster c then longer else if c == 0x200d then joined else 0

  unfoldable pub is_word : ℕ → Bool
  unfolding cjk
  is_word c = (u.is_alnum c || c == b'_') && not (cjk c)

  -- An apostrophe and a letter behind it, or a separator inside a number.
  unfoldable pub joins_word : Bool → ℕ → Text → Bool
  unfolding cjk
  joins_word number c [] = false
  joins_word number c (d ∷ rest) =
      (c == 0x27 || c == 0x2019) && u.is_alpha d && not (cjk d)
      || number && (c == b'.' || c == b',') && u.is_decimal d

  -- The `number` flag behind such a pair: an apostrophe ends a number.
  unfoldable pub still_number : Bool → ℕ → Text → Bool
  unfolding cjk
  still_number number c [] = number
  still_number number c (d ∷ rest) =
      if (c == 0x27 || c == 0x2019) && u.is_alpha d && not (cjk d) then false else number

  -- The inner loop of `tokenize`, as the number of code points that it adds to the word.
  unfoldable pub word_tail : ℕ → Bool → Text → ℕ
  unfolding cluster_tail is_word joins_word still_number
  word_tail zero number text = 0
  word_tail (suc fuel) number [] = 0
  word_tail (suc fuel) number (c ∷ rest) =
      let n = cluster_tail rest in
      let m = cluster_tail (drop 1 rest) in
      let plain = suc (n + word_tail fuel (number && u.is_decimal c) (drop n rest)) in
      let joined =
        suc (suc (m + word_tail fuel (still_number number c rest) (drop (suc m) rest))) in
      if is_word c then plain else if joins_word number c rest then joined else 0

  -- The length of the token that begins at a code point that is no space.
  unfoldable pub token_length : ℕ → ℕ → Text → ℕ
  unfolding cluster_tail is_word word_tail
  token_length fuel c rest =
      let n = cluster_tail rest in
      suc (if is_word c then n + word_tail fuel (u.is_decimal c) (drop n rest) else n)

  -- The outer loop, at a position and with the text from there on.
  unfoldable pub tokens_from : ℕ → ℕ → Text → List TextToken
  unfolding token_length
  tokens_from zero position text = []
  tokens_from (suc fuel) position [] = []
  tokens_from (suc fuel) position (c ∷ rest) =
      let n = token_length fuel c rest in
      let token : TextToken = record {
        text = take n (c ∷ rest);
        start = position;
        stop = position + n;
      } in
      let skip = tokens_from fuel (suc position) rest in
      let next = token ∷ tokens_from fuel (position + n) (drop n (c ∷ rest)) in
      if u.is_space c then skip else next

  unfoldable pub tokenize : Text → List TextToken
  unfolding tokens_from
  tokenize text = tokens_from (length text) 0 text

-- `token_char_end`; `none` is its ValueError.
unfoldable pub token_char_end : List TextToken → ℕ → Option ℕ
token_char_end tokens zero = some 0
token_char_end tokens (suc i) = elim (get_elem? tokens i) [ none ↦ none | some t ↦ some t.stop ]

-- The number of places at which a list of token texts agrees with the first one from `index` on.
unfoldable pub agree_at : List (List Text) → List Text → ℕ → Bool
agree_at others first index =
    all (λ s. text_eq (get_or_else (get_elem? s index) []) (get_or_else (get_elem? first index) []))
      others

unfoldable pub prefix_loop : ℕ → ℕ → List (List Text) → List Text → ℕ
unfolding agree_at
prefix_loop zero index others first = index
prefix_loop (suc left) index others first =
    let rest = prefix_loop left (suc index) others first in
    if agree_at others first index then rest else index

unfoldable pub shortest : ℕ → List (List Text) → ℕ
shortest n [] = n
shortest n (s ∷ rest) = shortest (min n (length s)) rest

-- `common_prefix_length`.
unfoldable pub common_prefix_length : List (List Text) → ℕ
unfolding prefix_loop shortest
common_prefix_length [] = 0
common_prefix_length (first ∷ others) = prefix_loop (shortest (length first) others) 0 others first
