-- ===== src/Session/Select.antt =====
-- The loop of `_select_utterance` of app/session/state.py: the stable text of an utterance is cut
-- into segments.
use my_vote_server.Base.{
  ℕ, zero, suc, ◌+◌, ◌-◌, ◌/◌, Bool, true, false, ◌||◌, Option, none, some, List, [], ◌∷◌, ◌++◌,
  map, leb, if◌then◌else◌, length, drop, count, Text, put,
}
use my_vote_server.Source.Text.{Unicode}
use my_vote_server.Policy.{SegmentCandidate, read, write, ReadWritePolicy, decide}
use my_vote_server.Session.State.{
  Segment, Utterance, Settings, session_limit, incomplete_source, Session, is_ready, is_running,
}
use my_vote_server.Session.Output.{has_rest, emit_error, arm}
use my_vote_server.Session.Lifecycle.{write_segment}

-- What the tracker says after `refresh`.
pub record Refreshed : Type 0 where
  pub score : ℕ
  pub stable_token_count : ℕ
  pub prefix_conflict : Bool

-- The segmenter of app/streaming/segmentation.py: what `select` makes of a text, its stable end,
-- the place to start from and the context. The policy is that of app/streaming/policy.py.
pub record Selecting : Type 0 where
  pub select : Text → ℕ → ℕ → Text → Option SegmentCandidate
  pub policy : ReadWritePolicy

-- `"\n".join(...)`.
unfoldable pub join_lines : List Text → Text
join_lines [] = []
join_lines (t ∷ []) = t
join_lines (t ∷ (v ∷ texts)) = t ++ b'\n' ∷ join_lines (v ∷ texts)

-- The sources of the last segments: `self.segments[-count:]`, and none for a count of 0.
unfoldable pub context_of : ℕ → List Segment → Text
unfolding join_lines
context_of n xs = join_lines (map (λ x. x.source) (drop (length xs - n) xs))

unfoldable pub is_waiting : Segment → Bool
is_waiting x = is_ready x.status || is_running x.status

-- The utterance once a segment of it is written.
unfoldable pub advance : ℕ → SegmentCandidate → {T : Type 0} → Utterance T → Utterance T
advance time c x = record x { selected_end = c.stop; buffer_since = time }

module _ {T : Type 0} (u : Unicode) (settings : Settings) (selecting : Selecting) where
  open selecting use {select, policy}

  unfoldable pub age_ms : ℕ → Utterance T → ℕ
  age_ms time x = (time - x.buffer_since) / 1000000000

  -- The segment that the policy lets pass.
  unfoldable pub choose : Refreshed → ℕ → Utterance T → Session T → Option SegmentCandidate
  unfolding context_of age_ms
  choose r time x s =
      let candidate =
        select x.text x.stable_end x.selected_end
          (context_of settings.context_segments s.segments) in
      let decision = decide policy candidate (record {
        stability_score = r.score;
        stable_token_count = r.stable_token_count;
        age_ms = age_ms time x;
        pause_ms = x.pause_ms;
        is_final = x.final;
        prefix_conflict = r.prefix_conflict;
      }) in
      elim decision.action [ read ↦ none | write ↦ decision.segment ]

  -- Nothing is written: what is unfinished for good is reported once, the rest is looked at later.
  unfoldable pub hold : ℕ → Utterance T → Session T → Bool × Session T
  unfolding age_ms emit_error arm put
  hold time x s =
      let reported : Session T = record (emit_error settings incomplete_source s) {
        utterances = put x.utterance_id (record x { incomplete_reported = true }) s.utterances;
      } in
      if x.final || leb settings.max_buffer_age_ms (age_ms time x)
      then (true, if x.incomplete_reported then s else reported)
      else (x.incomplete_reported, arm x.utterance_id s)

  -- The loop; `none` is the end of the fuel. The utterance is the one that the session holds.
  unfoldable pub select_loop :
      ℕ → (ℕ → ℕ) → Refreshed → Utterance T → Session T → Option (Bool × Session T)
  unfolding has_rest emit_error is_waiting arm choose hold advance write_segment
  select_loop zero clock r x s = none
  select_loop (suc fuel) clock r x s = elim (has_rest u x) [
    | false ↦ some (true, s)
    | true ↦
        if leb settings.max_segments (length s.segments)
        then some (false, emit_error settings session_limit s)
        else if leb settings.max_pending_per_session (count is_waiting s.segments)
        then some (false, arm x.utterance_id s)
        else elim (choose r (clock 0) x s) [
          | none ↦ some (hold (clock 0) x s)
          | some c ↦
              select_loop fuel (λ k. clock (k + 2)) r (advance (clock 1) c x)
                (write_segment settings (clock 1) x c s)
        ]
  ]

  -- The loop with the fuel that its bound on the segments allows.
  unfoldable pub select_segments :
      (ℕ → ℕ) → Refreshed → Utterance T → Session T → Option (Bool × Session T)
  unfolding select_loop
  select_segments clock r x s =
      select_loop (suc (settings.max_segments - length s.segments)) clock r x s
