-- ===== src/Engine/Captions/Export/Merging.antt =====
-- Merging subtitles that overlap: MyVote-Speaker-Update/src/myvote_engine/captions.py.
use my_vote_server.Base.{
  ℕ, ◌≤◌, ◌<◌, ◌≡◌, refl, sym, ap, subst, ◌∙◌, inl, inr, true, false, ◌||◌, List, [], ◌∷◌, map,
  arith, ltb, ◌==◌, if◌then◌else◌, ltb→lt, Bool-cases, if_ind, any, All, contains,
}
use my_vote_server.Engine.Captions.Export.{
  join_with, Cue, insert_time, boundaries, change_active, active_bodies, merge_from, merge_times,
  merged,
}
use my_vote_server.Engine.Captions.Export.Boundaries.{
  covers, Lasts, Above, Increasing, contains-insert_time, boundaries-Increasing, Above-absent,
  IsListed, next-IsListed, change_active-covers, text_at, active_bodies-covers, any-covers,
  filter-steady, any-steady,
}

-- Subtitles one after the other, none before a first time.
abbrev pub Ordered : ℕ → List Cue → Type 0
Ordered b [] = Unit
Ordered b (m ∷ ms) = (b ≤ m.start_ms) × (m.start_ms < m.end_ms) × Ordered m.end_ms ms

-- Throughout its time, a subtitle shows what the given ones show.
abbrev pub Shows : List Cue → Cue → Type 0
Shows cues m = (p : ℕ) → m.start_ms ≤ p → p < m.end_ms → m.body ≡ text_at p cues

Ordered-early : (b p : ℕ) (ms : List Cue) → Ordered b ms → p < b → any (covers p) ms ≡ false
Ordered-early b p [] o h = refl
Ordered-early b p (m ∷ ms) o h =
    ground (arith, o.0, Ordered-early m.end_ms p ms o.2 (omega (arith, o.0, o.1, h)))

Ordered-later : (b c : ℕ) (ms : List Cue) → c ≤ b → Ordered b ms → Ordered c ms
Ordered-later b c [] h o = tt
Ordered-later b c (m ∷ ms) h o = (omega (arith, h, o.0), o.1, o.2)

-- The subtitles of a walk from a boundary on.
record IsMergedFrom (b : ℕ) (cues ms : List Cue) : Type 0 where
  ordered : Ordered b ms
  shows : All (Shows cues) ms
  same_times : (p : ℕ) → b ≤ p → any (covers p) ms ≡ any (covers p) cues

past-covers :
    (b p : ℕ) (cues : List Cue) → All (IsListed b []) cues → b ≤ p → any (covers p) cues ≡ false
past-covers b p [] l h = refl
past-covers b p (c ∷ cues) l h = ground (arith, l.0.end_listed, past-covers b p cues l.1 h)

next-All :
    (b t : ℕ) (times : List ℕ) (cues : List Cue)
    → All (IsListed b (t ∷ times)) cues
    → b < t
    → All (IsListed t times) cues
next-All b t times [] l h = tt
next-All b t times (c ∷ cues) l h = (next-IsListed b t times c l.0 h, next-All b t times cues l.1 h)

-- One more boundary: the subtitle up to it, if one is shown, and the rest.
step-IsMergedFrom :
    (b t : ℕ) (times : List ℕ) (cues ms : List Cue)
    → All (IsListed b (t ∷ times)) cues
    → Above b (t ∷ times)
    → IsMergedFrom t cues ms
    → let made : Cue = record {
      start_ms = b;
      end_ms = t;
      body = join_with b'\n' (active_bodies cues (map (covers b) cues));
    } in
      IsMergedFrom b cues (if any (λ a. a) (map (covers b) cues) then made ∷ ms else ms)
unfolding text_at
step-IsMergedFrom b t times cues ms l a v =
    if_ind (IsMergedFrom b cues) (any (λ a. a) (map (covers b) cues)) _ _
      (λ e. record {
        ordered = (omega arith, a.0, v.ordered);
        shows = (shown, v.shows);
        same_times = λ p h. with_one p h e;
      })
      (λ e. record {
        ordered = Ordered-later t b ms (omega (arith, a.0)) v.ordered;
        shows = v.shows;
        same_times = λ p h. without p h e;
      })
  where
    made : Cue
    made = record {
      start_ms = b;
      end_ms = t;
      body = join_with b'\n' (active_bodies cues (map (covers b) cues));
    }

    shown : Shows cues made
    shown p h h' = ap (join_with b'\n') (
        active_bodies-covers b cues
        ∙ ap (map (λ c. c.body)) (sym (filter-steady b t p times cues l a h h')))

    with_one :
        (p : ℕ)
        → b ≤ p
        → any (λ x. x) (map (covers b) cues) ≡ true
        → any (covers p) (made ∷ ms) ≡ any (covers p) cues
    with_one p h e = elim (Bool-cases (ltb p t)) [
      | inl early ↦
          ground (
            arith,
            early,
            e,
            any-covers b cues,
            any-steady b t p times cues l a h (ltb→lt p t early),
          )
      | inr late ↦ ground (arith, late, v.same_times p (ground (arith, late)))
    ]

    without :
        (p : ℕ)
        → b ≤ p
        → any (λ x. x) (map (covers b) cues) ≡ false
        → any (covers p) ms ≡ any (covers p) cues
    without p h e = elim (Bool-cases (ltb p t)) [
      | inl early ↦
          Ordered-early t p ms v.ordered (ltb→lt p t early)
          ∙ ground
              (arith, e, any-covers b cues, any-steady b t p times cues l a h (ltb→lt p t early))
      | inr late ↦ v.same_times p (ground (arith, late))
    ]

merge_from-IsMergedFrom :
    (b : ℕ) (times : List ℕ) (cues : List Cue)
    → All (IsListed b times) cues
    → Above b times
    → IsMergedFrom b cues (merge_from cues b (map (covers b) cues) times)
unfolding merge_from
merge_from-IsMergedFrom b [] cues l a = record {
  ordered = tt;
  shows = tt;
  same_times = λ p h. sym (past-covers b p cues l h);
}
merge_from-IsMergedFrom b (t ∷ times) cues l a =
    step-IsMergedFrom b t times cues
      (merge_from cues t (change_active t cues (map (covers b) cues)) times) l a
      (subst (λ active. IsMergedFrom t cues (merge_from cues t active times))
        (sym (change_active-covers b t times cues l a))
        (merge_from-IsMergedFrom t times cues (next-All b t times cues l a.0) a.1))

-- What merging promises, by times: the new subtitles stand one after the other; each shows, at
-- every time of its own, the texts of just those given ones that are shown at that time; and at
-- every time one of them is shown if and only if one of the given ones is.
pub record IsMerged (cues ms : List Cue) : Type 0 where
  pub ordered : Ordered 0 ms
  pub shows : All (Shows cues) ms
  pub same_times : (p : ℕ) → any (covers p) ms ≡ any (covers p) cues

-- Before the first boundary nothing is shown, and each subtitle is listed from there on.
first-IsListed :
    (t : ℕ) (times : List ℕ) (c : Cue)
    → Lasts c
    → Increasing (t ∷ times)
    → contains c.start_ms (t ∷ times) ≡ true
    → contains c.end_ms (t ∷ times) ≡ true
    → IsListed t times c × (t ≤ c.start_ms)
first-IsListed t times c lasts a s e = (
  record { start_listed = ground (arith, s); end_listed = ground (arith, e); lasts = lasts },
  ground (arith, s, Above-absent t c.start_ms times a),
)

first_active :
    (t : ℕ) (times : List ℕ) (cues : List Cue)
    → All (λ c. IsListed t times c × (t ≤ c.start_ms)) cues
    → change_active t cues (map (λ c. false) cues) ≡ map (covers t) cues
unfolding change_active
first_active t times [] l = refl
first_active t times (c ∷ cues) l =
    ground (arith, l.0.0.lasts, l.0.1, first_active t times cues l.1)

early-covers :
    (t p : ℕ) (times : List ℕ) (cues : List Cue)
    → All (λ c. IsListed t times c × (t ≤ c.start_ms)) cues
    → p < t
    → any (covers p) cues ≡ false
early-covers t p times [] l h = refl
early-covers t p times (c ∷ cues) l h = ground (arith, l.0.1, early-covers t p times cues l.1 h)

IsListed-of_first :
    (t : ℕ) (times : List ℕ) (cues : List Cue)
    → All (λ c. IsListed t times c × (t ≤ c.start_ms)) cues
    → All (IsListed t times) cues
IsListed-of_first t times [] l = tt
IsListed-of_first t times (c ∷ cues) l = (l.0.0, IsListed-of_first t times cues l.1)

All-first :
    (t : ℕ) (times : List ℕ) (cues : List Cue)
    → All Lasts cues
    → Increasing (t ∷ times)
    → ((j : ℕ) → contains j (boundaries cues) ≡ true → contains j (t ∷ times) ≡ true)
    → All (λ c. IsListed t times c × (t ≤ c.start_ms)) cues
unfolding boundaries
All-first t times [] h a sub = tt
All-first t times (c ∷ cues) h a sub = (
  first-IsListed t times c h.0 a (sub c.start_ms (ground (arith, inside c.start_ms)))
      (sub c.end_ms (ground (arith, inside c.end_ms))),
  All-first t times cues h.1 a (λ j e. sub j (ground (arith, inside j, e))),
)
  where
    inside :
        (j : ℕ)
        → contains j (insert_time c.start_ms (insert_time c.end_ms (boundaries cues)))
          ≡ (c.start_ms == j || (c.end_ms == j || contains j (boundaries cues)))
    inside j = ground (
      arith,
      contains-insert_time j c.start_ms (insert_time c.end_ms (boundaries cues)),
      contains-insert_time j c.end_ms (boundaries cues),
    )

merge_times-IsMerged :
    (times : List ℕ) (cues : List Cue)
    → All Lasts cues
    → Increasing times
    → ((j : ℕ) → contains j (boundaries cues) ≡ true → contains j times ≡ true)
    → IsMerged cues (merge_times cues times)
unfolding merge_times boundaries
merge_times-IsMerged [] [] h a sub = record { ordered = tt; shows = tt; same_times = λ p. refl }
merge_times-IsMerged [] (c ∷ cues) h a sub = absurd (
    ground (
      arith,
      sub c.start_ms,
      contains-insert_time c.start_ms c.start_ms (insert_time c.end_ms (boundaries cues)),
    ))
merge_times-IsMerged (t ∷ times) cues h a sub =
    subst (λ active. IsMerged cues (merge_from cues t active times))
      (sym (first_active t times cues first))
      (record {
        ordered = Ordered-later t 0 found (omega arith) walk.ordered;
        shows = walk.shows;
        same_times = same;
      })
  where
    first : All (λ c. IsListed t times c × (t ≤ c.start_ms)) cues
    first = All-first t times cues h a sub

    found : List Cue
    found = merge_from cues t (map (covers t) cues) times

    walk : IsMergedFrom t cues found
    walk = merge_from-IsMergedFrom t times cues (IsListed-of_first t times cues first) a

    same : (p : ℕ) → any (covers p) found ≡ any (covers p) cues
    same p = elim (Bool-cases (ltb p t)) [
      | inl early ↦
          Ordered-early t p found walk.ordered (ltb→lt p t early)
          ∙ sym (early-covers t p times cues first (ltb→lt p t early))
      | inr late ↦ walk.same_times p (ground (arith, late))
    ]

-- For subtitles that last, the merged ones stand one after the other in time; each shows, at every
-- time of its own, the texts of just those given ones that are shown at that time, in their order;
-- and at every time one is shown if and only if one of the given ones is.
pub merged-IsMerged : (cues : List Cue) → All Lasts cues → IsMerged cues (merged cues)
unfolding merged
merged-IsMerged cues h =
    merge_times-IsMerged (boundaries cues) cues h (boundaries-Increasing cues) (λ j e. e)
