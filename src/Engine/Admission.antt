-- ===== src/Engine/Admission.antt =====
-- MyVote-Speaker-Update/src/myvote_engine/priority_translation.py: TranslationAdmission, which lets
-- live requests or one correction at a time reach a provider of translations. Its code runs on one
-- event loop, so each piece of `acquire` between two awaits is one step.
pub mod Exclusion
mod Samples
use my_vote_server.Base.{
  ℕ, ◌+◌, ◌-◌, Bool, true, false, not, ◌&&◌, ◌||◌, Option, none, some, ltb, leb, if◌then◌else◌,
}

pub record TranslationAdmission : Type 0 where
  pub max_primary : ℕ
  pub busy : ℕ
  pub secondary_busy : Bool
  pub primary_waiters : ℕ
  pub changed : Bool
  pub secondary_calls : ℕ
  pub primary_calls : ℕ

-- `__init__`; none is its ValueError.
unfoldable pub make : ℕ → Option TranslationAdmission
make max_primary =
    if not (leb 1 max_primary && leb max_primary 4)
    then none
    else some (record {
      max_primary = max_primary;
      busy = 0;
      secondary_busy = false;
      primary_waiters = 0;
      changed = false;
      secondary_calls = 0;
      primary_calls = 0;
    })

-- The start of `acquire`.
unfoldable pub arrive : Bool → TranslationAdmission → TranslationAdmission
arrive secondary s = if secondary then s else record s { primary_waiters = s.primary_waiters + 1 }

-- The condition of its loop; `pending` is what primary_pending answers.
unfoldable pub must_wait : Bool → Bool → TranslationAdmission → Bool
must_wait secondary pending s =
    s.secondary_busy
    || leb s.max_primary s.busy
    || secondary && (ltb 0 s.busy || ltb 0 s.primary_waiters || pending)

unfoldable pub hold : Bool → TranslationAdmission → TranslationAdmission
hold secondary s =
    let held = record s { busy = s.busy + 1; secondary_busy = secondary } in
    if secondary
    then record held { secondary_calls = s.secondary_calls + 1 }
    else record held { primary_calls = s.primary_calls + 1 }

-- One test of the condition: whether the caller goes on, or waits.
unfoldable pub try_acquire : Bool → Bool → TranslationAdmission → Bool × TranslationAdmission
unfolding must_wait hold
try_acquire secondary pending s =
    if must_wait secondary pending s
    then (false, record s { changed = false })
    else (true, hold secondary s)

-- The `finally` block.
unfoldable pub release : Bool → Bool → TranslationAdmission → TranslationAdmission
release secondary acquired s = record s {
  primary_waiters = if secondary then s.primary_waiters else s.primary_waiters - 1;
  busy = if acquired then s.busy - 1 else s.busy;
  secondary_busy = if acquired && secondary then false else s.secondary_busy;
  changed = true;
}
