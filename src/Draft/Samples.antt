-- ===== src/Draft/Samples.antt =====
-- The theorems about app/streaming/commit.py at small inputs.
use my_vote_server.Base.{◌≡◌, refl, true, false, none, some, [], ◌∷◌, arith, ◌==◌}
use my_vote_server.Source.Text.{Unicode}
use my_vote_server.Draft.{
  DraftState, DraftCommitter, Draft, draft, check, store, ready, mark_committed,
}
use my_vote_server.Draft.Stabilization.{
  proposes, commits, call, calls, mark_committed-calls, proposals, proposals-ready,
}

abbrev no_marks : Unicode
no_marks = record {
  is_space = λ c. c == b' ';
  is_alnum = λ c. false;
  is_decimal = λ c. false;
  is_alpha = λ c. false;
  is_mark = λ c. false;
}

abbrev hello : Draft
hello = draft 0 2 (b'h' ∷ b'i' ∷ []) (b'y' ∷ b'o' ∷ []) 1 true

abbrev new_committer : DraftCommitter
new_committer = record { stability_count = 2; delay_ms = 700; state = none; last_time = none }

proposals-ready_example :
    (ready 12 (proposals no_marks hello (10 ∷ 11 ∷ []) new_committer)).0 ≡ true
unfolding check
proposals-ready_example =
    proposals-ready no_marks hello 10 12 (11 ∷ []) new_committer refl refl (omega arith)

abbrev seen_twice : DraftState
seen_twice = record {
  source_start = 0;
  source_end = 2;
  source_text = b'h' ∷ b'i' ∷ [];
  target_text = b'y' ∷ b'o' ∷ [];
  source_revision = 1;
  observations = 2;
  changed_at = 10;
  is_final = true;
  committed = false;
}

abbrev settled : DraftCommitter
settled = record new_committer { state = some seen_twice; last_time = some 11 }

-- Afterwards "hello" is proposed again, and committed again.
mark_committed-calls_example :
    ((calls no_marks (proposes 13 hello ∷ []) (mark_committed 12 settled).1).state
      ≡ some (record seen_twice { committed = true }))
    × ((call no_marks
          (commits 14)
          (calls no_marks (proposes 13 hello ∷ []) (mark_committed 12 settled).1)).0
        ≡ true)
    × ((call no_marks
          (commits 14)
          (calls no_marks (proposes 13 hello ∷ []) (mark_committed 12 settled).1)).1.state
        ≡ some (record seen_twice { committed = true }))
unfolding mark_committed store
mark_committed-calls_example =
    mark_committed-calls no_marks 12 settled (record seen_twice { committed = true })
      (proposes 13 hello ∷ []) (commits 14) refl
