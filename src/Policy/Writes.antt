-- ===== src/Policy/Writes.antt =====
-- When app/streaming/policy.py writes.
use my_vote_server.Base.{
  ℕ, ◌≤◌, ◌≡◌, refl, ◌↔◌, ◌⊎◌, inl, inr, true, false, Option, none, some, arith, leb, leb→le,
  Bool-cases, if_ind,
}
use my_vote_server.Policy.{
  one, SegmentCandidate, write, PolicyDecision, ReadWritePolicy, Evidence, reads, writes, paused,
  due, decide_complete, decide,
}

-- Something is due: the source is final, old enough, or the speaker paused.
abbrev pub IsDue : ReadWritePolicy → Evidence → Type 0
IsDue p e =
    (e.is_final ≡ true)
    ⊎ (p.max_latency_ms ≤ e.age_ms)
    ⊎ ((pause : ℕ) × (e.pause_ms ≡ some pause) × (p.pause_threshold_ms ≤ pause))

-- The candidate is a complete and stable source, and it is a good time to write it.
pub record MayWrite (p : ReadWritePolicy) (c : SegmentCandidate) (e : Evidence) : Type 0 where
  pub no_conflict : e.prefix_conflict ≡ false
  pub complete : c.complete ≡ true
  pub stable : (p.stability_threshold ≤ e.stability_score) × (e.stability_score ≤ one)
  pub covered : c.token_count ≤ e.stable_token_count
  pub timely :
      (c.strong_boundary ≡ true)
      ⊎ ((p.min_stable_tokens ≤ e.stable_token_count)
          × ((p.target_segment_tokens ≤ c.token_count)
              ⊎ ((p.min_segment_tokens ≤ c.token_count) × IsDue p e)))

IsDue-due : (p : ReadWritePolicy) (e : Evidence) → IsDue p e → due p e ≡ true
unfolding due paused
IsDue-due p e (inl final) = ground arith
IsDue-due p e (inr (inl old)) = ground arith
IsDue-due p e (inr (inr (pause, there, long))) = ground arith

paused-IsDue :
    (p : ReadWritePolicy) (o : Option ℕ)
    → paused p o ≡ true
    → (pause : ℕ) × (o ≡ some pause) × (p.pause_threshold_ms ≤ pause)
unfolding paused
paused-IsDue p none h = cc
paused-IsDue p (some pause) h = (pause, refl, leb→le _ _ h)

due-IsDue : (p : ReadWritePolicy) (e : Evidence) → due p e ≡ true → IsDue p e
unfolding due
due-IsDue p e h = elim (Bool-cases e.is_final) [
  | inl final ↦ inl final
  | inr waiting ↦ elim (Bool-cases (leb p.max_latency_ms e.age_ms)) [
    | inl old ↦ inr (inl (leb→le _ _ old))
    | inr young ↦ inr (inr (paused-IsDue p e.pause_ms (rw (waiting, young) at h)))
  ]
]

abbrev Timely : ReadWritePolicy → SegmentCandidate → Evidence → Type 0
Timely p c e =
    (c.strong_boundary ≡ true)
    ⊎ ((p.min_stable_tokens ≤ e.stable_token_count)
        × ((p.target_segment_tokens ≤ c.token_count)
            ⊎ ((p.min_segment_tokens ≤ c.token_count) × IsDue p e)))

-- A complete candidate that is written is stable, and its time has come.
written :
    (p : ReadWritePolicy) (c : SegmentCandidate) (e : Evidence)
    → (decide_complete p c e).action ≡ write
    → (p.stability_threshold ≤ e.stability_score)
      × (e.stability_score ≤ one)
      × (c.token_count ≤ e.stable_token_count)
      × Timely p c e
unfolding decide_complete reads writes
written p c e h = (
  ground arith,
  ground arith,
  ground arith,
  elim (Bool-cases c.strong_boundary) [
    | inl strong ↦ inl strong
    | inr weak ↦ inr (
      ground arith,
      (elim (Bool-cases (leb p.target_segment_tokens c.token_count)) [
        | inl long ↦ inl (leb→le _ _ long)
        | inr short ↦ inr (ground arith, due-IsDue p e (ground arith))
      ]),
    )
  ],
)

writes_back :
    (p : ReadWritePolicy) (c : SegmentCandidate) (e : Evidence)
    → MayWrite p c e
    → ((decide_complete p c e).action ≡ write) × ((decide_complete p c e).segment ≡ some c)
unfolding decide_complete reads writes
writes_back p c e m = go m.timely
  where
    go :
        Timely p c e
        → ((decide_complete p c e).action ≡ write) × ((decide_complete p c e).segment ≡ some c)
    go (inl strong) = (ground (arith, m.stable, m.covered), ground (arith, m.stable, m.covered))
    go (inr (enough, inl long)) =
        (ground (arith, m.stable, m.covered), ground (arith, m.stable, m.covered))
    go (inr (enough, inr (some_length, is_due))) = (
      ground (arith, m.stable, m.covered, IsDue-due p e is_due),
      ground (arith, m.stable, m.covered, IsDue-due p e is_due),
    )

decide-some :
    (p : ReadWritePolicy) (o : Option SegmentCandidate) (e : Evidence) (c : SegmentCandidate)
    → (decide p o e).action ≡ write
    → (decide p o e).segment ≡ some c
    → (o ≡ some c)
      × (e.prefix_conflict ≡ false)
      × (c.complete ≡ true)
      × ((decide_complete p c e).action ≡ write)
unfolding decide reads decide_complete writes
decide-some p o e c acted segment = ground arith

decide_whole :
    (p : ReadWritePolicy) (o : Option SegmentCandidate) (e : Evidence) (c : SegmentCandidate)
    → o ≡ some c
    → e.prefix_conflict ≡ false
    → c.complete ≡ true
    → decide p o e ≡ decide_complete p c e
unfolding decide
decide_whole p o e c there no_conflict complete =
    let R = λ (r : PolicyDecision). r ≡ decide_complete p c e in
    if_ind R e.prefix_conflict _ _ (λ conflict. cc)
      (λ _. rw there (if_ind R c.complete _ _ (λ _. refl) (λ open_end. cc)))

-- The policy writes a candidate exactly if it is complete and stable and its time has come, and
-- then it writes that candidate and no other.
pub decide-MayWrite :
    (p : ReadWritePolicy) (candidate : Option SegmentCandidate) (e : Evidence)
    (c : SegmentCandidate)
    → (((decide p candidate e).action ≡ write) × ((decide p candidate e).segment ≡ some c))
      ↔ ((candidate ≡ some c) × MayWrite p c e)
decide-MayWrite p candidate e c = (
  (λ (acted, segment).
      let (there, no_conflict, complete, done) = decide-some p candidate e c acted segment in
      let (low, high, covered, timely) = written p c e done in
      (
        there,
        record {
          no_conflict = no_conflict;
          complete = complete;
          stable = (low, high);
          covered = covered;
          timely = timely;
        },
      )),
  (λ (there, m).
      rw (decide_whole p candidate e c there m.no_conflict m.complete) (writes_back p c e m)),
)
