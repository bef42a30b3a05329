-- ===== src/Source/Revision/Difference.antt =====
-- Where two hypotheses begin to differ for app/streaming/revision.py.
use my_vote_server.Base.{
  ℕ, zero, suc, ◌≤◌, ◌<◌, ◌≡◌, refl, ap, subst, ◌≢◌, ◌⊎◌, inl, inr, true, false, ◌&&◌, some, List,
  [], ◌∷◌, ◌++◌, arith, ltb, ◌==◌, ==_iff, Bool-cases, if_ind, length, take, get_elem?, All, Text,
}
use my_vote_server.Source.Text.{Unicode, TextToken, tokenize}
use my_vote_server.Source.Revision.{common_length, before_token, first_difference}

pub common_length-take :
    (old new : Text) (n : ℕ) → n ≤ common_length old new → take n old ≡ take n new
unfolding common_length
common_length-take old new zero h = refl
common_length-take [] new (suc n) h = absurd (omega arith)
common_length-take (a ∷ old) [] (suc n) h = absurd (omega arith)
common_length-take (a ∷ old) (b ∷ new) (suc n) h = elim (Bool-cases (a == b)) [
  | inl same ↦
      let rest = common_length-take old new n (ground arith) in cc ((==_iff a b).0 same, rest)
  | inr differ ↦ absurd (omega (arith, rw differ at h))
]

before_token-le : (d : ℕ) (ts : List TextToken) → before_token d ts ≤ d
unfolding before_token
before_token-le d [] = omega arith
before_token-le d (t ∷ ts) = ground (arith, before_token-le d ts)

pub first_difference-le :
    (u : Unicode) (old new : Text) → first_difference u old new ≤ common_length old new
unfolding first_difference
first_difference-le u old new =
    ground (arith, before_token-le (common_length old new) (tokenize u new))

-- A place that is at the start of a token or in front of it, or at its end or behind it.
abbrev pub Outside : ℕ → TextToken → Type 0
Outside place t = t.start < place → t.stop ≤ place

-- The start of the first of some tokens that a place is strictly inside of, or else the place.
abbrev pub StartsWord : ℕ → List TextToken → ℕ → Type 0
StartsWord place tokens d =
    ((front : List TextToken) × (t : TextToken) × (back : List TextToken) × (tokens
        ≡ front ++ t ∷ back)
      × (t.start < place)
      × (place < t.stop)
      × (d ≡ t.start)
      × All (Outside place) front)
    ⊎ ((d ≡ place) × All (Outside place) tokens)

-- Where the new hypothesis begins to change the old one, at a word's start: the texts share their
-- first `common` characters and no more, and where the new text goes on behind the whole old one,
-- inside of a word, the change begins where that word does.
pub record IsDifference (u : Unicode) (old new : Text) (d : ℕ) : Type 0 where
  pub common : ℕ
  pub in_old : common ≤ length old
  pub in_new : common ≤ length new
  pub shared : take common old ≡ take common new
  pub no_more :
      common < length old → common < length new → get_elem? old common ≢ get_elem? new common
  pub inside : common < length old → d ≡ common
  pub shorter : length new ≤ length old → d ≡ common
  pub extends : common ≡ length old → length old < length new → StartsWord common (tokenize u new) d

common_length-in :
    (old new : Text) → (common_length old new ≤ length old) × (common_length old new ≤ length new)
unfolding common_length
common_length-in [] new = (omega arith, omega arith)
common_length-in (a ∷ old) [] = (omega arith, omega arith)
common_length-in (a ∷ old) (b ∷ new) =
    let rest = common_length-in old new in (ground (arith, rest.0), ground (arith, rest.1))

common_length-no_more :
    (old new : Text)
    → common_length old new < length old
    → common_length old new < length new
    → get_elem? old (common_length old new) ≢ get_elem? new (common_length old new)
unfolding common_length
common_length-no_more [] new h k e = omega (arith, h)
common_length-no_more (a ∷ old) [] h k e = omega (arith, k)
common_length-no_more (a ∷ old) (b ∷ new) h k e = elim (Bool-cases (a == b)) [
  | inl same ↦
      common_length-no_more old new (ground (arith, h, same)) (ground (arith, k, same))
        (one_on same)
  | inr differ ↦ ground (arith, differ, first differ)
]
  where
    one_on :
        (a == b) ≡ true
        → get_elem? old (common_length old new) ≡ get_elem? new (common_length old new)
    one_on same =
        subst (λ (n : ℕ). get_elem? (a ∷ old) n ≡ get_elem? (b ∷ new) n)
          {x = common_length (a ∷ old) (b ∷ new)} {y = suc (common_length old new)}
          (ground (arith, same)) e

    first : (a == b) ≡ false → some a ≡ some b
    first differ =
        subst (λ (n : ℕ). get_elem? (a ∷ old) n ≡ get_elem? (b ∷ new) n)
          {x = common_length (a ∷ old) (b ∷ new)} {y = 0} (ground (arith, differ)) e

before_token-StartsWord :
    (place : ℕ) (tokens : List TextToken) → StartsWord place tokens (before_token place tokens)
unfolding before_token
before_token-StartsWord place [] = inr (refl, tt)
before_token-StartsWord place (t ∷ rest) =
    if_ind (StartsWord place (t ∷ rest)) (ltb t.start place && ltb place t.stop) _ _
      (λ hit. inl ([], t, rest, refl, ground (arith, hit), ground (arith, hit), refl, tt))
      (λ miss. later miss (before_token-StartsWord place rest))
  where
    outside_of : (ltb t.start place && ltb place t.stop) ≡ false → Outside place t
    outside_of miss early = ground (arith, miss, early)

    later :
        (ltb t.start place && ltb place t.stop) ≡ false
        → StartsWord place rest (before_token place rest)
        → StartsWord place (t ∷ rest) (before_token place rest)
    later miss (inl (front, x, back, split, early, late, same, outside)) =
        inl (t ∷ front, x, back, ap (◌∷◌ t) split, early, late, same, (outside_of miss, outside))
    later miss (inr (same, outside)) = inr (same, (outside_of miss, outside))

pub first_difference-IsDifference :
    (u : Unicode) (old new : Text) → IsDifference u old new (first_difference u old new)
unfolding first_difference
first_difference-IsDifference u old new = record {
  common = common_length old new;
  in_old = (common_length-in old new).0;
  in_new = (common_length-in old new).1;
  shared = common_length-take old new (common_length old new) (omega arith);
  no_more = common_length-no_more old new;
  inside = λ h. ground (arith, h);
  shorter = λ h. ground (arith, h);
  extends = λ h k.
      subst (StartsWord (common_length old new) (tokenize u new))
        {x = before_token (common_length old new) (tokenize u new)} {y = first_difference u old new}
        (ground (arith, h, k)) (before_token-StartsWord (common_length old new) (tokenize u new));
}
