-- ===== src/Context/Glossary/Selection.antt =====
-- What matching_entries of app/context/glossary.py selects.
use my_vote_server.Base.{
  ℕ, ◌+◌, ◌-◌, ◌≤◌, ◌<◌, ◌≡◌, sym, subst, ◌↔◌, ◌⊎◌, inl, inr, Bool, true, false, ◌&&◌, ◌||◌, Option,
  some, List, [], ◌∷◌, arith, ltb, leb, ◌==◌, Bool-cases, if_ind, Option-cases, length, All, Text,
}
use my_vote_server.Source.Text.{Unicode}
use my_vote_server.Context.Glossary.{
  matches, precedes, insert_entry, sort_entries, cost_of, select, matching_entries,
}

-- What the selection costs.
unfoldable pub total_cost : List (Text × Text) → ℕ
total_cost [] = 0
total_cost (e ∷ es) = cost_of e + total_cost es

unfoldable pub IsAmong : Text × Text → List (Text × Text) → Type 0
IsAmong e [] = ⊥
IsAmong e (d ∷ ds) = (e ≡ d) ⊎ IsAmong e ds

-- A selection within a budget: all of it is given and matches, and each entry that matches is selected or no
-- longer fits.
pub record IsSelection (test : Text → Option Bool) (budget : ℕ)
    (entries chosen : List (Text × Text)) : Type 0 where
  pub affordable : total_cost chosen ≤ budget
  pub matching : All (λ e. test e.0 ≡ some true) chosen
  pub given : (e : Text × Text) → IsAmong e chosen → IsAmong e entries
  pub full :
      (e : Text × Text)
      → IsAmong e entries
      → test e.0 ≡ some true
      → IsAmong e chosen ⊎ (budget < cost_of e + total_cost chosen)

skip-IsSelection :
    (test : Text → Option Bool) (budget : ℕ) (e : Text × Text) (es chosen : List (Text × Text))
    → (test e.0 ≡ some true → budget < cost_of e)
    → IsSelection test budget es chosen
    → IsSelection test budget (e ∷ es) chosen
unfolding IsAmong
skip-IsSelection test budget e es chosen fails v = record {
  affordable = v.affordable;
  matching = v.matching;
  given = λ d a. inr (v.given d a);
  full = full;
}
  where
    full :
        (d : Text × Text)
        → (d ≡ e) ⊎ IsAmong d es
        → test d.0 ≡ some true
        → IsAmong d chosen ⊎ (budget < cost_of d + total_cost chosen)
    full d (inl same) h = inr (
        subst (λ x. test x.0 ≡ some true → budget < cost_of x + total_cost chosen) (sym same)
          (λ k. omega (arith, fails k)) h)
    full d (inr later) h = v.full d later h

take-IsSelection :
    (test : Text → Option Bool) (budget : ℕ) (e : Text × Text) (es chosen : List (Text × Text))
    → test e.0 ≡ some true
    → cost_of e ≤ budget
    → IsSelection test (budget - cost_of e) es chosen
    → IsSelection test budget (e ∷ es) (e ∷ chosen)
unfolding IsAmong total_cost
take-IsSelection test budget e es chosen h fits v = record {
  affordable = omega (arith, v.affordable, fits);
  matching = (h, v.matching);
  given = given;
  full = full;
}
  where
    given : (d : Text × Text) → (d ≡ e) ⊎ IsAmong d chosen → (d ≡ e) ⊎ IsAmong d es
    given d (inl same) = inl same
    given d (inr later) = inr (v.given d later)

    full :
        (d : Text × Text)
        → (d ≡ e) ⊎ IsAmong d es
        → test d.0 ≡ some true
        → ((d ≡ e) ⊎ IsAmong d chosen) ⊎ (budget < cost_of d + (cost_of e + total_cost chosen))
    full d (inl same) k = inl (inl same)
    full d (inr later) k = elim (v.full d later k) [
      | inl there ↦ inl (inr there)
      | inr late ↦ inr (omega (arith, late, fits))
    ]

select-IsSelection :
    (test : Text → Option Bool) (budget : ℕ) (entries chosen : List (Text × Text))
    → select test budget entries ≡ some chosen
    → IsSelection test budget entries chosen
unfolding select total_cost IsAmong
select-IsSelection test budget [] chosen h =
    subst (IsSelection test budget []) {x = []} {y = chosen} (ground (arith, h)) (record {
      affordable = omega arith;
      matching = tt;
      given = λ e a. absurd a;
      full = λ e a m. absurd a;
    })
select-IsSelection test budget (e ∷ es) chosen h =
    let later = select-IsSelection test budget es chosen in
    elim (Bool-cases (leb (cost_of e) budget)) [
      | inr big ↦
          skip-IsSelection test budget e es chosen (λ m. ground (arith, big))
            (later (ground (arith, h, big)))
      | inl fits ↦ elim (Option-cases (test e.0)) [
        | inl raised ↦ absurd (ground (arith, h, fits, raised))
        | inr (false, missed) ↦
            skip-IsSelection test budget e es chosen (λ m. absurd (ground (arith, m, missed)))
              (later (ground (arith, h, fits, missed)))
        | inr (true, hit) ↦ elim (Option-cases (select test (budget - cost_of e) es)) [
          | inl raised ↦ absurd (ground (arith, h, fits, hit, raised))
          | inr (rest, found) ↦
              subst (IsSelection test budget (e ∷ es)) {x = e ∷ rest} {y = chosen}
                (ground (arith, h, fits, hit, found))
                (take-IsSelection test budget e es rest hit (ground (arith, fits))
                  (select-IsSelection test (budget - cost_of e) es rest found))
        ]
      ]
    ]

insert_entry-IsAmong :
    (d e : Text × Text) (es : List (Text × Text))
    → IsAmong d (insert_entry e es) ↔ ((d ≡ e) ⊎ IsAmong d es)
unfolding insert_entry IsAmong
insert_entry-IsAmong d e [] = ((λ a. a), (λ a. a))
insert_entry-IsAmong d e (x ∷ xs) =
    if_ind (λ l. IsAmong d l ↔ ((d ≡ e) ⊎ ((d ≡ x) ⊎ IsAmong d xs)))
      (ltb (length x.0) (length e.0) || length x.0 == length e.0 && precedes e.0 x.0) _ _
      (λ _. ((λ a. a), (λ a. a))) (λ _. later (insert_entry-IsAmong d e xs))
  where
    later :
        IsAmong d (insert_entry e xs) ↔ ((d ≡ e) ⊎ IsAmong d xs)
        → IsAmong d (x ∷ insert_entry e xs) ↔ ((d ≡ e) ⊎ ((d ≡ x) ⊎ IsAmong d xs))
    later rest = (
      (λ a. elim a [
        | inl same ↦ inr (inl same)
        | inr there ↦ elim (rest.0 there) [ inl new ↦ inl new | inr old ↦ inr (inr old) ]
      ]),
      (λ a. elim a [
        | inl new ↦ inr (rest.1 (inl new))
        | inr old ↦ elim old [ inl same ↦ inl same | inr there ↦ inr (rest.1 (inr there)) ]
      ]),
    )

-- Sorting neither drops an entry nor adds one.
sort_entries-IsAmong :
    (d : Text × Text) (es : List (Text × Text)) → IsAmong d (sort_entries es) ↔ IsAmong d es
unfolding sort_entries IsAmong
sort_entries-IsAmong d [] = ((λ a. a), (λ a. a))
sort_entries-IsAmong d (e ∷ es) =
    let first = insert_entry-IsAmong d e (sort_entries es) in
    let rest = sort_entries-IsAmong d es in
    (
      (λ a. elim (first.0 a) [ inl same ↦ inl same | inr there ↦ inr (rest.0 there) ]),
      (λ a. first.1 (elim a [ inl same ↦ inl same | inr there ↦ inr (rest.1 there) ])),
    )

-- When an answer is given, where an empty key raises, the selected entries are all of the glossary,
-- match the source as words and cost at most the budget together, and an entry of the glossary that
-- matches is left out only if it does not fit any more.
pub matching_entries-IsSelection :
    (u : Unicode) (fold : Text → Text) (source : Text) (entries : List (Text × Text)) (budget : ℕ)
    (chosen : List (Text × Text))
    → matching_entries u fold source entries budget ≡ some chosen
    → IsSelection (matches u fold source) budget entries chosen
unfolding matching_entries
matching_entries-IsSelection u fold source entries budget chosen h =
    let v = select-IsSelection (matches u fold source) budget (sort_entries entries) chosen h in
    record {
      affordable = v.affordable;
      matching = v.matching;
      given = λ e a. (sort_entries-IsAmong e entries).0 (v.given e a);
      full = λ e a. v.full e ((sort_entries-IsAmong e entries).1 a);
    }
