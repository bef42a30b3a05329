-- ===== src/Translation/Scheduler/Queueing.antt =====
-- What `submit` of app/translation/scheduler.py does to the queue of the job's session.
use my_vote_server.Base.{
  ◌+◌, ◌-◌, ◌≡◌, refl, sym, ap, subst, ◌∙◌, ◌⊎◌, inl, inr, true, false, not, List, [], ◌∷◌, ◌++◌,
  append-nil, arith, ◌==◌, ==_iff, Bool-cases, length, filter, count, All, length-append,
  All-append, All-filter, All-parts,
}
use my_vote_server.Translation.Job.{TranslationJob}
use my_vote_server.Translation.Scheduler.{Entry, is_replaced, replace_first, enqueue}

-- The queue without the entries that the job replaces.
abbrev pub kept_by : TranslationJob → List Entry → List Entry
kept_by job = filter (λ e. not (is_replaced job e))

kept_by_all :
    (job : TranslationJob) (queue : List Entry)
    → count (is_replaced job) queue ≡ 0
    → kept_by job queue ≡ queue
kept_by_all job [] h = refl
kept_by_all job (e ∷ queue) h = ground (arith, kept_by_all job queue)

-- Where the new entry goes: to the end when nothing is replaced, and else to where the first
-- replaced entry stood, since no entry of the front is replaced.
abbrev pub Place : Entry → List Entry → List Entry → List Entry → Type 0
Place entry queue front back =
    ((back ≡ []) × (count (is_replaced entry.job) queue ≡ 0))
    ⊎ ((e : Entry) × (rest : List Entry) × (queue ≡ front ++ e ∷ rest)
        × (is_replaced entry.job e ≡ true))

-- The new entry stands at its place of the queue that is left, which is otherwise unchanged.
pub record IsInserted (entry : Entry) (queue result : List Entry) : Type 0 where
  pub front : List Entry
  pub back : List Entry
  pub kept : kept_by entry.job queue ≡ front ++ back
  pub placed : result ≡ front ++ entry ∷ back
  pub place : Place entry queue front back

replace_first-IsInserted :
    (entry : Entry) (queue : List Entry)
    → (count (is_replaced entry.job) queue == 0) ≡ false
    → IsInserted entry queue (replace_first entry queue)
unfolding replace_first
replace_first-IsInserted entry [] h = absurd (ground arith)
replace_first-IsInserted entry (e ∷ queue) h = elim (Bool-cases (is_replaced entry.job e)) [
  | inl yes_it ↦ record {
    front = [];
    back = kept_by entry.job queue;
    kept = rw yes_it refl;
    placed = rw yes_it refl;
    place = inr (e, queue, refl, yes_it);
  }
  | inr not_it ↦
      let i = replace_first-IsInserted entry queue (rw not_it at h) in
      record {
        front = e ∷ i.front;
        back = i.back;
        kept = rw not_it (ap (◌∷◌ e) i.kept);
        placed = rw not_it (ap (◌∷◌ e) i.placed);
        place = elim i.place [
          | inl (at_end, nothing) ↦ absurd (ground (arith, h, not_it, nothing))
          | inr (x, rest, split, hit) ↦ inr (x, rest, ap (◌∷◌ e) split, hit)
        ];
      }
]

-- Every entry that the job does not replace is kept, in its order; only the new one is added.
pub enqueue-IsInserted :
    (entry : Entry) (queue : List Entry) → IsInserted entry queue (enqueue entry queue)
unfolding enqueue
enqueue-IsInserted entry queue = elim (Bool-cases (count (is_replaced entry.job) queue == 0)) [
  | inl none_there ↦ record {
    front = queue;
    back = [];
    kept = kept_by_all entry.job queue ((==_iff _ 0).0 none_there) ∙ sym (append-nil queue);
    placed = rw none_there refl;
    place = inl (refl, (==_iff _ 0).0 none_there);
  }
  | inr some_there ↦
      let i = replace_first-IsInserted entry queue some_there in
      record {
        front = i.front;
        back = i.back;
        kept = i.kept;
        placed = rw some_there i.placed;
        place = i.place;
      }
]

length-kept_by :
    (job : TranslationJob) (queue : List Entry)
    → length (kept_by job queue) + count (is_replaced job) queue ≡ length queue
length-kept_by job [] = omega arith
length-kept_by job (e ∷ queue) = ground (arith, length-kept_by job queue)

pub length-enqueue :
    (entry : Entry) (queue : List Entry)
    → length (enqueue entry queue) ≡ length queue - count (is_replaced entry.job) queue + 1
length-enqueue entry queue =
    let i = enqueue-IsInserted entry queue in
    omega (
      arith,
      length-kept_by entry.job queue,
      ap length i.kept,
      ap length i.placed,
      length-append i.front i.back,
      length-append i.front (entry ∷ i.back),
    )

pub All-enqueue {κ} :
    (P : Entry → Type κ) (entry : Entry) (queue : List Entry)
    → P entry
    → All P queue
    → All P (enqueue entry queue)
All-enqueue P entry queue h all_old =
    let i = enqueue-IsInserted entry queue in
    let (front, back) =
      All-parts P i.front i.back
        (subst (All P) i.kept (All-filter P (λ e. not (is_replaced entry.job e)) queue all_old)) in
    subst (All P) (sym i.placed) (All-append P i.front (entry ∷ i.back) front (h, back))
