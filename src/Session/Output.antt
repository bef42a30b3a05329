-- ===== src/Session/Output.antt =====
-- What app/session/state.py sends and which timers it sets.
use my_vote_server.Base.{
  ℕ, ◌+◌, Bool, false, not, ◌&&◌, ◌||◌, none, some, List, [], ◌∷◌, ◌++◌, map, reverse, ltb, ◌==◌,
  if◌then◌else◌, is_some, length, is_empty, take, drop, all, filter, Text, values,
}
use my_vote_server.Source.Text.{Unicode}
use my_vote_server.Context.{utf8_length}
use my_vote_server.Session.State.{
  Segment, Utterance, Settings, Code, Kind, Snapshot, Event, shown, error, hang_up, TimerKey,
  decision, commitment, Timer, Call, Session,
}

-- `text.lstrip()`, `text.strip()`, and `" ".join(texts)`.
unfoldable pub strip_left : Unicode → Text → Text
strip_left u [] = []
strip_left u (c ∷ text) = let rest = strip_left u text in if u.is_space c then rest else c ∷ text

unfoldable pub strip : Unicode → Text → Text
unfolding strip_left
strip u text = reverse (strip_left u (reverse (strip_left u text)))

unfoldable pub join : List Text → Text
join [] = []
join (t ∷ []) = t
join (t ∷ (v ∷ texts)) = t ++ b' ' ∷ join (v ∷ texts)

-- The visible segments in front of the first one that is not committed, and the rest.
unfoldable pub committed_part : List Segment → List Segment
committed_part [] = []
committed_part (x ∷ xs) = let rest = committed_part xs in if x.committed then x ∷ rest else []

unfoldable pub draft_part : List Segment → List Segment
draft_part [] = []
draft_part (x ∷ xs) = let rest = draft_part xs in if x.committed then rest else x ∷ xs

unfoldable pub visible : List Segment → List Segment
visible = filter (λ x. not (is_empty x.translation))

unfoldable pub same_key : TimerKey → TimerKey → Bool
same_key (decision a) (decision b) = a == b
same_key (decision a) (commitment b) = false
same_key (commitment a) (decision b) = false
same_key (commitment a) (commitment b) = a == b

module _ {T : Type 0} where
  -- `u.text[u.selected_end:].strip()` is not empty.
  unfoldable pub has_rest : Unicode → Utterance T → Bool
  has_rest u x = not (all u.is_space (drop x.selected_end x.text))

  -- `snapshot`.
  unfoldable pub snapshot : Unicode → Kind → Session T → Snapshot
  unfolding strip join committed_part draft_part visible has_rest
  snapshot u kind s =
      let utterances = values s.utterances in
      let seen = visible s.segments in
      let text : List Segment → Text = λ xs. join (map (λ x. x.translation) xs) in
      record {
        kind = kind;
        session_id = s.session_id;
        generation_id = s.generation_id;
        revision = s.revision;
        last_sequence = s.last_sequence;
        source_language = s.source_language;
        target_language = s.target_language;
        committed_source =
            strip u (join (map (λ x. strip u (take x.stable_end x.text)) utterances));
        unstable_source = strip u (join (map (λ x. strip u (drop x.stable_end x.text)) utterances));
        committed = text (committed_part seen);
        draft = text (draft_part seen);
        full_text = text seen;
        final =
            not (is_empty utterances)
            && all (λ x. x.final && not (has_rest u x)) utterances
            && not (is_empty s.segments)
            && all (λ x. x.committed) s.segments;
        segments = s.segments;
      }

  -- `emit`: a full queue is emptied and the connection ended.
  unfoldable pub emit : Settings → Event → Session T → Session T
  emit settings event s = elim s.queue [
    | none ↦ s
    | some events ↦
        if ltb (length events) settings.outgoing_queue_size
        then record s { queue = some (events ++ event ∷ []) }
        else record s { queue = some (hang_up ∷ []) }
  ]

  -- `emit(self.snapshot(kind))`.
  unfoldable pub emit_snapshot : Unicode → Settings → Kind → Session T → Session T
  unfolding emit snapshot
  emit_snapshot u settings kind s = emit settings (shown (snapshot u kind s)) s

  -- `error`.
  unfoldable pub emit_error : Settings → Code → Session T → Session T
  unfolding emit
  emit_error settings code s = emit settings (error code s.last_sequence) s

  unfoldable pub set_timer : TimerKey → Session T → Session T
  unfolding same_key
  set_timer key s =
      let timer : Timer = record { key = key; generation = s.generation_id } in
      record s { timers = timer ∷ filter (λ t. not (same_key t.key key)) s.timers }

  -- `_arm`: an open and connected session has one decision timer for each utterance.
  unfoldable pub arm : ℕ → Session T → Session T
  unfolding set_timer
  arm uid s = if s.closed || not (is_some s.queue) then s else set_timer (decision uid) s

  -- `_arm_commit`.
  unfoldable pub arm_commit : ℕ → Session T → Session T
  unfolding set_timer
  arm_commit sid s = set_timer (commitment sid) s

  unfoldable pub cancel_timers : Session T → Session T
  cancel_timers s = record s { timers = [] }

  unfoldable pub call : Call → Session T → Session T
  call c s = record s { calls = c ∷ s.calls }

  -- The bytes of the texts of the utterances, and `state_bytes`.
  unfoldable pub text_bytes : List (Utterance T) → ℕ
  text_bytes [] = 0
  text_bytes (u ∷ us) = utf8_length u.text + text_bytes us

unfoldable pub translation_chars : List Segment → ℕ
translation_chars [] = 0
translation_chars (x ∷ xs) = length x.translation + translation_chars xs

unfoldable pub translation_bytes : List Segment → ℕ
translation_bytes [] = 0
translation_bytes (x ∷ xs) = utf8_length x.translation + translation_bytes xs

unfoldable pub state_bytes : {T : Type 0} → Session T → ℕ
unfolding text_bytes translation_bytes
state_bytes s = text_bytes (values s.utterances) + translation_bytes s.segments
