-- ===== src/Source/Text/Prefix.antt =====
-- `common_prefix_length` of app/utils/text.py is the length of the longest common prefix.
use my_vote_server.Source.Text.{agree_at, prefix_loop, shortest, common_prefix_length}
use my_vote_server.Base.{
  ℕ, zero, suc, ◌+◌, ◌≤◌, ◌<◌, min, ◌≡◌, refl, ap, subst, ◌∙◌, ◌⊎◌, inl, inr, true, false, some,
  List, [], ◌∷◌, arith, and_parts, Bool-cases, get_or_else, length, take, drop, get_elem?, All,
  Text, text_eq, text_eq→eq, text_eq_refl,
}

-- All the sequences begin with the first `n` elements of `first`.
abbrev pub Share : ℕ → List Text → List (List Text) → Type 0
Share n first = All (λ s. take n s ≡ take n first)

abbrev NotShorter : ℕ → List (List Text) → Type 0
NotShorter n = All (λ s. n ≤ length s)

shortest-le : (n : ℕ) (others : List (List Text)) → shortest n others ≤ n
unfolding shortest
shortest-le n [] = omega arith
shortest-le n (s ∷ others) = omega (arith, shortest-le (min n (length s)) others)

NotShorter-le :
    (n m : ℕ) (others : List (List Text)) → n ≤ m → NotShorter m others → NotShorter n others
NotShorter-le n m [] h all_long = tt
NotShorter-le n m (s ∷ others) h all_long =
    (omega (arith, all_long.0), NotShorter-le n m others h all_long.1)

shortest-NotShorter : (n : ℕ) (others : List (List Text)) → NotShorter (shortest n others) others
unfolding shortest
shortest-NotShorter n [] = tt
shortest-NotShorter n (s ∷ others) = (
  omega (arith, shortest-le (min n (length s)) others),
  shortest-NotShorter (min n (length s)) others,
)

-- The element at `n` in front of which two lists agree.
take-suc {ℓ} :
    {A : Type ℓ} (n : ℕ) (xs ys : List A) (x : A)
    → take n xs ≡ take n ys
    → get_elem? xs n ≡ some x
    → get_elem? ys n ≡ some x
    → take (suc n) xs ≡ take (suc n) ys
take-suc n [] ys x same ex ey = cc
take-suc n (a ∷ xs) [] x same ex ey = cc
take-suc zero (a ∷ xs) (b ∷ ys) x same ex ey = cc
take-suc (suc n) (a ∷ xs) (b ∷ ys) x same ex ey =
    let tails : take n xs ≡ take n ys = ap (drop 1) same in
    let heads : a ≡ b = ap (λ l. get_or_else (get_elem? l 0) a) same in
    cc (take-suc n xs ys x tails ex ey, heads)

get_elem?-lt {ℓ} :
    {A : Type ℓ} (n : ℕ) (xs : List A) → n < length xs → (x : A) × (get_elem? xs n ≡ some x)
get_elem?-lt n [] h = absurd (omega arith)
get_elem?-lt zero (x ∷ xs) h = (x, refl)
get_elem?-lt (suc n) (x ∷ xs) h = get_elem?-lt n xs (omega arith)

Share-next :
    (n : ℕ) (first : List Text) (others : List (List Text))
    → n < length first
    → NotShorter (suc n) others
    → agree_at others first n ≡ true
    → Share n first others
    → Share (suc n) first others
unfolding agree_at
Share-next n first [] long all_long agree share = tt
Share-next n first (s ∷ others) long all_long agree share =
    let (x, ex) = get_elem?-lt n s all_long.0 in
    let (y, ey) = get_elem?-lt n first long in
    let (same, agree') =
      and_parts (text_eq (get_or_else (get_elem? s n) []) (get_or_else (get_elem? first n) [])) _
        agree in
    let x_y : x ≡ y = text_eq→eq x y (rw (ex, ey) at same) in
    (
      take-suc n s first y share.0 (ex ∙ ap some x_y) ey,
      Share-next n first others long all_long.1 agree' share.1,
    )

-- A longer common prefix needs longer lists that agree one element further on.
NotShorter-shortest :
    (m n : ℕ) (others : List (List Text)) → m ≤ n → NotShorter m others → m ≤ shortest n others
unfolding shortest
NotShorter-shortest m n [] h all_long = h
NotShorter-shortest m n (s ∷ others) h all_long =
    NotShorter-shortest m (min n (length s)) others (omega (arith, all_long.0)) all_long.1

element_at {ℓ} :
    {A : Type ℓ} (n : ℕ) (xs ys : List A)
    → take (suc n) xs ≡ take (suc n) ys
    → get_elem? xs n ≡ get_elem? ys n
element_at n [] [] same = refl
element_at n [] (b ∷ ys) same = cc
element_at n (a ∷ xs) [] same = cc
element_at zero (a ∷ xs) (b ∷ ys) same = ap (λ l. get_elem? l 0) same
element_at (suc n) (a ∷ xs) (b ∷ ys) same = element_at n xs ys (ap (drop 1) same)

Share-agree :
    (n : ℕ) (first : List Text) (others : List (List Text))
    → Share (suc n) first others
    → agree_at others first n ≡ true
unfolding agree_at
Share-agree n first [] share = refl
Share-agree n first (s ∷ others) share =
    rw (element_at n s first share.0, text_eq_refl (get_or_else (get_elem? first n) []))
      (Share-agree n first others share.1)

-- The loop stops at the end of the shortest list, or where the lists differ.
Stops : ℕ → ℕ → List Text → List (List Text) → Type 0
Stops limit n first others = (n ≡ limit) ⊎ (agree_at others first n ≡ false)

prefix_loop-Share :
    (left n : ℕ) (others : List (List Text)) (first : List Text)
    → n + left ≤ length first
    → NotShorter (n + left) others
    → Share n first others
    → Share (prefix_loop left n others first) first others
      × Stops (n + left) (prefix_loop left n others first) first others
unfolding prefix_loop Stops
prefix_loop-Share zero n others first long all_long share = (share, inl (omega arith))
prefix_loop-Share (suc left) n others first long all_long share =
    elim (Bool-cases (agree_at others first n)) [
      | inl agree ↦
          let go =
            prefix_loop-Share left (suc n) others first (omega arith)
              (NotShorter-le (suc n + left) (n + suc left) others (omega arith) all_long)
              (Share-next n first others (omega arith)
                (NotShorter-le (suc n) (n + suc left) others (omega arith) all_long) agree share) in
          let limit : suc n + left ≡ n + suc left = omega arith in
          rw agree (
            subst
              (λ k.
                Share (prefix_loop left (suc n) others first) first others
                × Stops k (prefix_loop left (suc n) others first) first others)
              limit go)
      | inr differ ↦ rw differ (share, inr differ)
    ]

Share-zero : (first : List Text) (others : List (List Text)) → Share 0 first others
Share-zero first [] = tt
Share-zero first (s ∷ others) = (refl, Share-zero first others)

not_longer :
    (n : ℕ) (first : List Text) (others : List (List Text))
    → Stops (shortest (length first) others) n first others
    → n < length first
    → NotShorter (suc n) others
    → Share (suc n) first others
    → ⊥
unfolding Stops
not_longer n first others (inl all_used) long all_long share =
    absurd (omega (arith, NotShorter-shortest (suc n) (length first) others long all_long))
not_longer n first others (inr differ) long all_long share = cc (Share-agree n first others share)

-- All the sequences agree on the first `common_prefix_length` elements, and either one of them
-- ends there or the next elements are not all equal.
pub common_prefix_length-Share :
    (first : List Text) (others : List (List Text))
    → let n = common_prefix_length (first ∷ others) in
      Share n first others
      × ¬ ((n < length first) × NotShorter (suc n) others × Share (suc n) first others)
unfolding common_prefix_length
common_prefix_length-Share first others =
    let most = shortest (length first) others in
    let long = shortest-le (length first) others in
    let all_long = shortest-NotShorter (length first) others in
    let none_read : 0 + most ≡ most = omega arith in
    let (share, stop) =
      prefix_loop-Share most 0 others first (omega (arith, long))
        (NotShorter-le (0 + most) most others (omega arith) all_long) (Share-zero first others) in
    let stop' =
      subst (λ k. Stops k (prefix_loop most 0 others first) first others) none_read stop in
    (share, λ h. not_longer _ first others stop' h.0 h.1 h.2)
