-- ===== src/Policy/Samples.antt =====
-- The theorem about app/streaming/policy.py at a small input.
use my_vote_server.Base.{◌≡◌, refl, true, false, none, some, [], ◌∷◌}
use my_vote_server.Policy.{SegmentCandidate, ReadWritePolicy, Evidence, decide}
use my_vote_server.Policy.Writes.{MayWrite, decide-MayWrite}

abbrev sample_policy : ReadWritePolicy
sample_policy = record {
  stability_threshold = 750000000000;
  min_stable_tokens = 3;
  min_segment_tokens = 5;
  target_segment_tokens = 10;
  max_latency_ms = 1500;
  pause_threshold_ms = 500;
}

abbrev sentence : SegmentCandidate
sentence = record {
  start = 0;
  stop = 2;
  text = b'g' ∷ b'o' ∷ [];
  complete = true;
  reason = "complete_command";
  token_count = 1;
  strong_boundary = true;
}

abbrev sure : Evidence
sure = record {
  stability_score = 900000000000;
  stable_token_count = 1;
  age_ms = 0;
  pause_ms = none;
  is_final = false;
  prefix_conflict = false;
}

decide-MayWrite_example : (some sentence ≡ some sentence) × MayWrite sample_policy sentence sure
unfolding decide
decide-MayWrite_example =
    (decide-MayWrite sample_policy (some sentence) sure sentence).0 (refl, refl)
