-- ===== src/Base/Dicts.antt =====
-- Python's `dict` with identifiers for keys, in insertion order.
use Prim.Native.Nat.{ℕ, ◌+◌, ◌≤◌}
use mathlib.Core.Path.{◌≡◌, refl, ap, subst}
use mathlib.Core.Logic.{inl, inr}
use mathlib.Core.Bool.{Bool, true, false}
use mathlib.Core.List.{List, [], ◌∷◌}
use mathlib.Core.Option.{Option, none, some}
use native.Mathlib.Omega.{arith}
use my_vote_server.Base.Tests.{◌==◌, if◌then◌else◌, is_some, get_or_else, Bool-cases, ==_iff}
use my_vote_server.Base.Lists.{length, All}

abbrev pub Dict {ℓ} : Type ℓ → Type ℓ
Dict V = List (ℕ × V)

module _ {ℓ} {V : Type ℓ} where
  -- `d.get(k)`.
  unfoldable pub get : ℕ → Dict V → Option V
  get k [] = none
  get k ((j, v) ∷ d) = if j == k then some v else get k d

  -- `d[k] = v`: an old key keeps its place, a new one goes to the end.
  unfoldable pub put : ℕ → V → Dict V → Dict V
  put k v [] = (k, v) ∷ []
  put k v ((j, w) ∷ d) = let rest = put k v d in if j == k then (k, v) ∷ d else (j, w) ∷ rest

  -- `d.pop(k, None)`.
  unfoldable pub pop : ℕ → Dict V → Dict V
  pop k [] = []
  pop k ((j, w) ∷ d) = let rest = pop k d in if j == k then rest else (j, w) ∷ rest

  -- `k in d`.
  unfoldable pub has : ℕ → Dict V → Bool
  has k d = is_some (get k d)

  -- `list(d)`.
  unfoldable pub keys : Dict V → List ℕ
  keys [] = []
  keys ((k, v) ∷ d) = k ∷ keys d

  -- `d.values()`.
  unfoldable pub values : Dict V → List V
  values [] = []
  values ((k, v) ∷ d) = v ∷ values d

  pub get-put :
      (k j : ℕ) (v : V) (d : Dict V) → get j (put k v d) ≡ (if k == j then some v else get j d)
  unfolding get put
  get-put k j v [] = refl
  get-put k j v ((i, w) ∷ d) = ground (arith, get-put k j v d)

  pub get-pop : (k j : ℕ) (d : Dict V) → get j (pop k d) ≡ (if k == j then none else get j d)
  unfolding get pop
  get-pop k j [] = ground arith
  get-pop k j ((i, w) ∷ d) = ground (arith, get-pop k j d)

  pub has-put :
      (k j : ℕ) (v : V) (d : Dict V) → has j (put k v d) ≡ (if k == j then true else has j d)
  unfolding has
  has-put k j v d = ground (arith, get-put k j v d)

  pub has-pop : (k j : ℕ) (d : Dict V) → has j (pop k d) ≡ (if k == j then false else has j d)
  unfolding has
  has-pop k j d = ground (arith, get-pop k j d)

  pub get_or_else-put :
      (k j : ℕ) (v w : V) (d : Dict V)
      → get_or_else (get j (put k v d)) w ≡ (if k == j then v else get_or_else (get j d) w)
  get_or_else-put k j v w d = ground (arith, get-put k j v d)

  pub get_or_else-pop :
      (k j : ℕ) (w : V) (d : Dict V)
      → get_or_else (get j (pop k d)) w ≡ (if k == j then w else get_or_else (get j d) w)
  get_or_else-pop k j w d = ground (arith, get-pop k j d)

  pub length-put :
      (k : ℕ) (v : V) (d : Dict V)
      → length (put k v d) ≡ (if has k d then length d else length d + 1)
  unfolding get put has
  length-put k v [] = omega arith
  length-put k v ((i, w) ∷ d) = ground (arith, length-put k v d)

  pub length-pop-le : (k : ℕ) (d : Dict V) → length (pop k d) ≤ length d
  unfolding pop
  length-pop-le k [] = omega arith
  length-pop-le k ((i, w) ∷ d) = ground (arith, length-pop-le k d)

  pub length-pop-lt : (k : ℕ) (d : Dict V) → has k d ≡ true → length (pop k d) + 1 ≤ length d
  unfolding pop has get
  length-pop-lt k [] h = cc
  length-pop-lt k ((i, w) ∷ d) h = ground (arith, length-pop-lt k d, length-pop-le k d)

-- What holds of every item of a dictionary.
module _ {ℓ κ} {V : Type ℓ} (P : ℕ × V → Type κ) where
  pub All-put : (k : ℕ) (v : V) (d : Dict V) → P (k, v) → All P d → All P (put k v d)
  unfolding put
  All-put k v [] h all_old = (h, tt)
  All-put k v ((i, w) ∷ d) h all_old =
      let rest = All-put k v d h all_old.1 in
      elim (Bool-cases (i == k)) [ inl e ↦ rw e (h, all_old.1) | inr e ↦ rw e (all_old.0, rest) ]

  pub All-pop : (k : ℕ) (d : Dict V) → All P d → All P (pop k d)
  unfolding pop
  All-pop k [] all_old = tt
  All-pop k ((i, w) ∷ d) all_old =
      let rest = All-pop k d all_old.1 in
      elim (Bool-cases (i == k)) [ inl e ↦ rw e rest | inr e ↦ rw e (all_old.0, rest) ]

  pub All-get : (k : ℕ) (v : V) (d : Dict V) → get k d ≡ some v → All P d → P (k, v)
  unfolding get
  All-get k v [] e all_old = cc
  All-get k v ((i, w) ∷ d) e all_old = elim (Bool-cases (i == k)) [
    | inl same ↦
        let w_v : w ≡ v = ap (λ o. get_or_else o w) (rw same at e) in
        subst (λ u. P (k, u)) w_v (subst (λ j. P (j, w)) ((==_iff i k).0 same) all_old.0)
    | inr other ↦ All-get k v d (rw other at e) all_old.1
  ]

-- The number of items over all the lists that a dictionary holds.
module _ {ℓ} {A : Type ℓ} where
  unfoldable pub total : Dict (List A) → ℕ
  total [] = 0
  total ((k, xs) ∷ d) = length xs + total d

  pub total-put :
      (k : ℕ) (xs : List A) (d : Dict (List A))
      → total (put k xs d) + length (get_or_else (get k d) []) ≡ total d + length xs
  unfolding total get put
  total-put k xs [] = omega arith
  total-put k xs ((i, ys) ∷ d) = ground (arith, total-put k xs d)

  pub total-pop-le :
      (k : ℕ) (d : Dict (List A)) → total (pop k d) + length (get_or_else (get k d) []) ≤ total d
  unfolding total get pop
  total-pop-le k [] = omega arith
  total-pop-le k ((i, ys) ∷ d) = ground (arith, total-pop-le k d)
