-- ===== src/Session/Selection.antt =====
-- The loop of `_select_utterance` of app/session/state.py ends and keeps the order of the session.
use my_vote_server.Base.{
  ℕ, zero, suc, ◌+◌, ◌-◌, ◌<◌, ◌≡◌, refl, Bool, true, false, Option, none, some, arith, leb,
  if◌then◌else◌, if_ind, is_some, length, count, length-append,
}
use my_vote_server.Source.Text.{Unicode}
use my_vote_server.Policy.{SegmentCandidate}
use my_vote_server.Session.State.{Utterance, Settings, session_limit, Session}
use my_vote_server.Session.Output.{has_rest, emit_error, arm}
use my_vote_server.Session.Lifecycle.{write_segment}
use my_vote_server.Session.Select.{
  Refreshed, Selecting, is_waiting, advance, choose, hold, select_loop, select_segments,
}

write_segment-length :
    {T : Type 0} (settings : Settings) (time : ℕ) (x : Utterance T) (c : SegmentCandidate)
    (s : Session T)
    → length (write_segment settings time x c s).segments ≡ length s.segments + 1
unfolding write_segment
write_segment-length settings time x c s = length-append s.segments _

module _ {T : Type 0} (u : Unicode) (settings : Settings) (selecting : Selecting) where
  select_loop-ends :
      (fuel : ℕ) (clock : ℕ → ℕ) (r : Refreshed) (x : Utterance T) (s : Session T)
      → settings.max_segments - length s.segments < fuel
      → is_some (select_loop u settings selecting fuel clock r x s) ≡ true
  unfolding select_loop
  select_loop-ends zero clock r x s h = absurd (omega (arith, h))
  select_loop-ends (suc fuel) clock r x s h = rest (has_rest u x) (λ c.
      select_loop-ends fuel (λ k. clock (k + 2)) r (advance (clock 1) c x)
        (write_segment settings (clock 1) x c s))
    where
      write : SegmentCandidate → Option (Bool × Session T)
      write c =
          select_loop u settings selecting fuel (λ k. clock (k + 2)) r (advance (clock 1) c x)
            (write_segment settings (clock 1) x c s)

      Later : Type 0
      Later =
          (c : SegmentCandidate)
          → settings.max_segments - length (write_segment settings (clock 1) x c s).segments < fuel
          → is_some (write c) ≡ true

      fits :
          (c : SegmentCandidate)
          → leb settings.max_segments (length s.segments) ≡ false
          → settings.max_segments - length (write_segment settings (clock 1) x c s).segments < fuel
      fits c below = ground (arith, write_segment-length settings (clock 1) x c s, h)

      chosen :
          Later
          → leb settings.max_segments (length s.segments) ≡ false
          → (o : Option SegmentCandidate)
          → is_some {A = Bool × Session T}
              (elim o [ none ↦ some (hold u settings selecting (clock 0) x s) | some c ↦ write c ])
            ≡ true
      chosen later below none = refl
      chosen later below (some c) = later c (fits c below)

      rest :
          (b : Bool)
          → Later
          → is_some {A = Bool × Session T} (elim b [
            | false ↦ some (true, s)
            | true ↦
                if leb settings.max_segments (length s.segments)
                then some (false, emit_error settings session_limit s)
                else if leb settings.max_pending_per_session (count is_waiting s.segments)
                then some (false, arm x.utterance_id s)
                else elim (choose u settings selecting r (clock 0) x s) [
                  | none ↦ some (hold u settings selecting (clock 0) x s)
                  | some c ↦ write c
                ]
          ])
            ≡ true
      rest false later = refl
      rest true later =
          if_ind (λ o. is_some {A = Bool × Session T} o ≡ true)
            (leb settings.max_segments (length s.segments)) _ _ (λ e. refl)
            (λ e.
              if_ind (λ o. is_some {A = Bool × Session T} o ≡ true)
                (leb settings.max_pending_per_session (count is_waiting s.segments)) _ _ (λ f. refl)
                (λ f. chosen later e (choose u settings selecting r (clock 0) x s)))

  -- The loop of `_select_utterance` ends: the fuel that is given, one more than the segments that
  -- the limit leaves room for, is enough.
  pub select_segments-ends :
      (clock : ℕ → ℕ) (r : Refreshed) (x : Utterance T) (s : Session T)
      → is_some (select_segments u settings selecting clock r x s) ≡ true
  unfolding select_segments
  select_segments-ends clock r x s =
      select_loop-ends (suc (settings.max_segments - length s.segments)) clock r x s (omega arith)
