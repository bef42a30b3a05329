-- ===== src/Draft.antt =====
-- app/streaming/commit.py: when the translation of a segment stops being a draft. The clock counts
-- picoseconds, so a millisecond is 10 ^ 9 ticks and the tolerance of `ready`, 1e-9 ms, is one tick.
pub mod Stabilization
mod Samples
use my_vote_server.Base.{
  ℕ, ◌+◌, ◌-◌, ◌*◌, max, Bool, true, false, not, ◌&&◌, ◌||◌, Option, none, some, ltb, leb, ◌==◌,
  if◌then◌else◌, length, all, Text, text_eq,
}
use my_vote_server.Source.Text.{Unicode}

pub record DraftState : Type 0 where
  pub source_start : ℕ
  pub source_end : ℕ
  pub source_text : Text
  pub target_text : Text
  pub source_revision : ℕ
  pub observations : ℕ
  pub changed_at : ℕ
  pub is_final : Bool
  pub committed : Bool

pub record DraftCommitter : Type 0 where
  pub stability_count : ℕ
  pub delay_ms : ℕ
  pub state : Option DraftState
  pub last_time : Option ℕ

pub data Error : Type 0 where
  invalid_span invalid_text already_committed not_stabilized : Error

pub data Outcome : Type 0 where
  ok : DraftState → Outcome
  err : Error → Outcome

pub data Draft : Type 0 where
  draft : ℕ → ℕ → Text → Text → ℕ → Bool → Draft

abbrev pub ticks_per_ms : ℕ
ticks_per_ms = 1000000000

-- `__init__`; `none` is its ValueError.
pub make : ℕ → ℕ → Option DraftCommitter
make stability_count delay_ms =
    if ltb stability_count 1
    then none
    else some (record {
      stability_count = stability_count;
      delay_ms = delay_ms;
      state = none;
      last_time = none;
    })

-- `_now`: the clock never runs backwards.
pub now : ℕ → DraftCommitter → ℕ × DraftCommitter
now clock c =
    let time : ℕ = elim c.last_time [ none ↦ clock | some last ↦ max clock last ] in
    (time, record c { last_time = some time })

-- `not text.strip()`.
pub is_blank : Unicode → Text → Bool
is_blank u text = all u.is_space text

pub same_draft : DraftState → ℕ → ℕ → Text → ℕ → Bool
same_draft old start stop source revision =
    old.source_start == start
    && old.source_end == stop
    && text_eq old.source_text source
    && old.source_revision == revision

-- The state that a valid proposal makes of the one before.
pub observe : ℕ → Draft → Option DraftState → DraftState
unfolding same_draft
observe time (draft start stop source target revision is_final) none = record {
  source_start = start;
  source_end = stop;
  source_text = source;
  target_text = target;
  source_revision = revision;
  observations = 1;
  changed_at = time;
  is_final = is_final;
  committed = false;
}
observe time (draft start stop source target revision is_final) (some old) =
    let unchanged = same_draft old start stop source revision && text_eq old.target_text target in
    record {
      source_start = start;
      source_end = stop;
      source_text = source;
      target_text = target;
      source_revision = revision;
      observations = if unchanged then old.observations + 1 else 1;
      changed_at = if unchanged then old.changed_at else time;
      is_final = is_final;
      committed = false;
    }

pub is_committed : Option DraftState → Bool
is_committed none = false
is_committed (some s) = s.committed

-- The checks in front of `propose`: the span, and the texts.
pub check : Unicode → Draft → Option Error
unfolding is_blank
check u (draft start stop source target revision is_final) =
    if not (ltb start stop) || not (stop - start == length source)
    then some invalid_span
    else if is_blank u source || is_blank u target
    then some invalid_text
    else none

pub store : DraftState → DraftCommitter → Outcome × DraftCommitter
store s c = (ok s, record c { state = some s })

-- `propose`.
pub propose : Unicode → ℕ → Draft → DraftCommitter → Outcome × DraftCommitter
unfolding check now is_committed store
propose u clock d c = elim (check u d) [
  | some e ↦ (err e, c)
  | none ↦
      let (time, c') = now clock c in
      if is_committed c.state
      then (err already_committed, c')
      else store (observe time d c.state) c'
]

-- Whether the draft has been seen often enough, or for long enough.
pub stabilized : DraftCommitter → ℕ → DraftState → Bool
stabilized c time s =
    leb c.stability_count s.observations
    || leb (c.delay_ms * ticks_per_ms) (time - s.changed_at + 1)

-- `ready`.
pub ready : ℕ → DraftCommitter → Bool × DraftCommitter
unfolding now stabilized
ready clock c =
    let (time, c') = now clock c in
    (elim c.state [ none ↦ false | some s ↦ not s.committed && stabilized c time s ], c')

pub commit_state : Option DraftState → DraftCommitter → Outcome × DraftCommitter
unfolding store
commit_state none c = (err not_stabilized, c)
commit_state (some s) c = store (record s { committed = true }) c

-- `mark_committed`.
pub mark_committed : ℕ → DraftCommitter → Outcome × DraftCommitter
unfolding ready commit_state
mark_committed clock c =
    let (is_ready, c') = ready clock c in
    if is_ready then commit_state c'.state c' else (err not_stabilized, c')

pub reset : DraftCommitter → DraftCommitter
reset c = record c { state = none }
