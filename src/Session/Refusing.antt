-- ===== src/Session/Refusing.antt =====
-- What `ingest` of app/session/state.py leaves when it refuses an event.
use my_vote_server.Base.{ℕ, ◌+◌, ◌≡◌, refl, Option, none, some, arith, get_or_else, get}
use my_vote_server.Source.Text.{Unicode}
use my_vote_server.Session.State.{Utterance, Settings, Session}
use my_vote_server.Session.Results.{Handled, raises, session_of}
use my_vote_server.Session.Ingest.{
  AsrEvent, Tracking, Refusal, refusal, refusal_of, name_next, name_utterance, new_utterance,
  accept, hear, ingest,
}

-- Only the number of the next automatic name differs.
pub SameButName : {T : Type 0} → Session T → Session T → Type 0
SameButName s t = t ≡ record s { next_utterance = t.next_utterance }

module _ {T : Type 0} (u : Unicode) (settings : Settings) (tracking : Tracking T) where
  name_utterance-SameButName :
      (e : AsrEvent) (s : Session T) → SameButName s (name_utterance u settings tracking e s).1
  unfolding SameButName name_utterance name_next
  name_utterance-SameButName e s = ground arith

  -- An event that `ingest` refuses changes nothing of the session: no text, no segment, no timer,
  -- no event and not the last sequence number, but at most the number of the next automatic name.
  pub ingest-refused :
      (clock : ℕ → ℕ) (e : AsrEvent) (s : Session T) (r : Refusal)
      → (ingest u settings tracking clock e s).0 ≡ some r
      → SameButName s (session_of (ingest u settings tracking clock e s).1)
  unfolding ingest session_of SameButName
  ingest-refused clock e s r refused = checked (refusal settings e s) refused
    where
      uid : ℕ
      uid = (name_utterance u settings tracking e s).0

      named : Session T
      named = (name_utterance u settings tracking e s).1

      old : Option (Utterance T)
      old = get uid named.utterances

      known : Option Refusal → Option Refusal × Handled T
      known o = elim o [
        | some q ↦ (some q, raises named)
        | none ↦ (
          none,
          hear u settings tracking (λ k. clock (k + 1)) uid e
              (get_or_else old (new_utterance u settings tracking (clock 0) uid e))
              (accept u settings tracking uid e named),
        )
      ]

      answered : Option Refusal → Option Refusal × Handled T
      answered o = elim o [
        | some q ↦ (some q, raises s)
        | none ↦ known (refusal_of settings e old named)
      ]

      named_too :
          (o : Option Refusal) → (known o).0 ≡ some r → SameButName s (session_of (known o).1)
      named_too (some q) h = name_utterance-SameButName e s
      named_too none h = absurd (ground arith)

      checked :
          (o : Option Refusal) → (answered o).0 ≡ some r → SameButName s (session_of (answered o).1)
      checked (some q) h = refl
      checked none h = named_too (refusal_of settings e old named) h
