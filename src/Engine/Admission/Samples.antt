-- ===== src/Engine/Admission/Samples.antt =====
-- The theorem about MyVote-Speaker-Update/src/myvote_engine/priority_translation.py at a small run.
use my_vote_server.Base.{◌≡◌, refl, false, some, arith}
use my_vote_server.Engine.Admission.{TranslationAdmission, make, arrive, must_wait, try_acquire}
use my_vote_server.Engine.Admission.Exclusion.{
  World, alone, arrives_primary, enters_primary, Reach, here, next, IsExclusive,
  make-Reach-IsExclusive,
}

abbrev idle : TranslationAdmission
idle = record {
  max_primary = 1;
  busy = 0;
  secondary_busy = false;
  primary_waiters = 0;
  changed = false;
  secondary_calls = 0;
  primary_calls = 0;
}

abbrev arrived : World
arrived = record (alone idle) { admission = arrive false idle; waiting_primary = 1 }

abbrev running : World
running = record arrived {
  admission = (try_acquire false false (arrive false idle)).1;
  waiting_primary = 0;
  running_primary = 1;
}

entered : Reach (alone idle) running
unfolding try_acquire must_wait arrive
entered = next (next here arrives_primary) (enters_primary false (omega arith) refl)

made : make 1 ≡ some idle
unfolding make
made = refl

make-Reach-IsExclusive_example : IsExclusive running
make-Reach-IsExclusive_example = make-Reach-IsExclusive 1 idle running made entered
