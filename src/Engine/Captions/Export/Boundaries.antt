-- ===== src/Engine/Captions/Export/Boundaries.antt =====
-- Which subtitles are shown between two boundaries, the times at which one starts or ends:
-- MyVote-Speaker-Update/src/myvote_engine/captions.py.
use my_vote_server.Base.{
  ℕ, ◌≤◌, ◌<◌, ◌≡◌, refl, ap, Bool, true, false, ◌&&◌, ◌||◌, List, [], ◌∷◌, map, arith, ltb, leb,
  ◌==◌, if◌then◌else◌, ltb→lt, if_ind, any, filter, All, Text, contains,
}
use my_vote_server.Engine.Captions.Export.{
  join_with, Cue, insert_time, boundaries, change_active, active_bodies,
}

-- Whether a subtitle is shown at a time.
abbrev pub covers : ℕ → Cue → Bool
covers p c = leb c.start_ms p && ltb p c.end_ms

abbrev pub Lasts : Cue → Type 0
Lasts c = c.start_ms < c.end_ms

-- Increasing times, all of them after a first one.
abbrev pub Above : ℕ → List ℕ → Type 0
Above b [] = Unit
Above b (t ∷ times) = (b < t) × Above t times

abbrev pub Increasing : List ℕ → Type 0
Increasing [] = Unit
Increasing (t ∷ times) = Above t times

insert_time-Above :
    (b t : ℕ) (times : List ℕ) → b < t → Above b times → Above b (insert_time t times)
unfolding insert_time
insert_time-Above b t [] h a = (h, tt)
insert_time-Above b t (v ∷ vs) h a =
    if_ind (Above b) (t == v) _ _ (λ e. a)
      (λ e.
        if_ind (Above b) (ltb t v) _ _ (λ f. (h, (ltb→lt t v f, a.1)))
          (λ f. (a.0, insert_time-Above v t vs (ground (arith, e, f)) a.1)))

insert_time-Increasing :
    (t : ℕ) (times : List ℕ) → Increasing times → Increasing (insert_time t times)
unfolding insert_time
insert_time-Increasing t [] a = tt
insert_time-Increasing t (v ∷ vs) a =
    if_ind Increasing (t == v) _ _ (λ e. a)
      (λ e.
        if_ind Increasing (ltb t v) _ _ (λ f. (ltb→lt t v f, a))
          (λ f. insert_time-Above v t vs (ground (arith, e, f)) a))

pub contains-insert_time :
    (j t : ℕ) (times : List ℕ) → contains j (insert_time t times) ≡ (t == j || contains j times)
unfolding insert_time
contains-insert_time j t [] = refl
contains-insert_time j t (v ∷ vs) = ground (arith, contains-insert_time j t vs)

pub boundaries-Increasing : (cues : List Cue) → Increasing (boundaries cues)
unfolding boundaries
boundaries-Increasing [] = tt
boundaries-Increasing (c ∷ cues) =
    insert_time-Increasing c.start_ms (insert_time c.end_ms (boundaries cues))
      (insert_time-Increasing c.end_ms (boundaries cues) (boundaries-Increasing cues))

-- No listed time comes before the first one.
pub Above-absent : (b t : ℕ) (times : List ℕ) → Above b times → t ≤ b → contains t times ≡ false
Above-absent b t [] a h = refl
Above-absent b t (v ∷ vs) a h = ground (arith, a.0, Above-absent v t vs a.1 (omega (arith, a.0, h)))

-- The ends of a subtitle are past, or are still to come.
pub record IsListed (b : ℕ) (times : List ℕ) (c : Cue) : Type 0 where
  pub start_listed : (leb c.start_ms b || contains c.start_ms times) ≡ true
  pub end_listed : (leb c.end_ms b || contains c.end_ms times) ≡ true
  pub lasts : Lasts c

-- Between a boundary and the next one, nothing changes.
steady :
    (b t p : ℕ) (times : List ℕ) (c : Cue)
    → IsListed b (t ∷ times) c
    → Above b (t ∷ times)
    → b ≤ p
    → p < t
    → covers p c ≡ covers b c
steady b t p times c l a h h' = ground (
  arith,
  l.start_listed,
  l.end_listed,
  a.0,
  Above-absent t c.start_ms times a.1,
  Above-absent t c.end_ms times a.1,
)

pub next-IsListed :
    (b t : ℕ) (times : List ℕ) (c : Cue) → IsListed b (t ∷ times) c → b < t → IsListed t times c
next-IsListed b t times c l h = record {
  start_listed = ground (arith, l.start_listed);
  end_listed = ground (arith, l.end_listed);
  lasts = l.lasts;
}

change_covers :
    (b t : ℕ) (times : List ℕ) (c : Cue)
    → IsListed b (t ∷ times) c
    → Above b (t ∷ times)
    → (if c.end_ms == t then false else c.start_ms == t || covers b c) ≡ covers t c
change_covers b t times c l a = ground (
  arith,
  l.start_listed,
  l.end_listed,
  l.lasts,
  a.0,
  Above-absent t c.start_ms times a.1,
  Above-absent t c.end_ms times a.1,
)

pub change_active-covers :
    (b t : ℕ) (times : List ℕ) (cues : List Cue)
    → All (IsListed b (t ∷ times)) cues
    → Above b (t ∷ times)
    → change_active t cues (map (covers b) cues) ≡ map (covers t) cues
unfolding change_active
change_active-covers b t times [] l a = refl
change_active-covers b t times (c ∷ cues) l a =
    ground (arith, change_covers b t times c l.0 a, change_active-covers b t times cues l.1 a)

-- The texts of the subtitles that are shown at a time, one to a line.
unfoldable pub text_at : ℕ → List Cue → Text
text_at p cues = join_with b'\n' (map (λ c. c.body) (filter (covers p) cues))

pub active_bodies-covers :
    (b : ℕ) (cues : List Cue)
    → active_bodies cues (map (covers b) cues) ≡ map (λ c. c.body) (filter (covers b) cues)
unfolding active_bodies
active_bodies-covers b [] = refl
active_bodies-covers b (c ∷ cues) = ground (arith, active_bodies-covers b cues)

pub any-covers :
    (b : ℕ) (cues : List Cue) → any (λ a. a) (map (covers b) cues) ≡ any (covers b) cues
any-covers b [] = refl
any-covers b (c ∷ cues) = ap (λ r. covers b c || r) (any-covers b cues)

pub filter-steady :
    (b t p : ℕ) (times : List ℕ) (cues : List Cue)
    → All (IsListed b (t ∷ times)) cues
    → Above b (t ∷ times)
    → b ≤ p
    → p < t
    → filter (covers p) cues ≡ filter (covers b) cues
filter-steady b t p times [] l a h h' = refl
filter-steady b t p times (c ∷ cues) l a h h' =
    ground (arith, steady b t p times c l.0 a h h', filter-steady b t p times cues l.1 a h h')

pub any-steady :
    (b t p : ℕ) (times : List ℕ) (cues : List Cue)
    → All (IsListed b (t ∷ times)) cues
    → Above b (t ∷ times)
    → b ≤ p
    → p < t
    → any (covers p) cues ≡ any (covers b) cues
any-steady b t p times [] l a h h' = refl
any-steady b t p times (c ∷ cues) l a h h' =
    ground (arith, steady b t p times c l.0 a h h', any-steady b t p times cues l.1 a h h')
