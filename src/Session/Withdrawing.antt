-- ===== src/Session/Withdrawing.antt =====
-- Writing, withdrawing and clearing segments keep the order of a session: app/session/state.py.
use my_vote_server.Base.{
  ℕ, ◌+◌, ◌≤◌, ◌≡◌, refl, sym, ap, ◌∙◌, inl, inr, true, false, Option, none, some, List, [], ◌∷◌,
  ◌++◌, arith, Bool-cases, if_ind, take, drop, All, All-append, contains, contains-append, distinct,
  distinct-snoc,
}
use my_vote_server.Source.Text.{Unicode}
use my_vote_server.Policy.{SegmentCandidate}
use my_vote_server.Session.State.{
  Segment, Utterance, Settings, translation_update, shown, invalidate_segments, cancel_all_jobs,
  Session, is_running,
}
use my_vote_server.Session.Output.{snapshot, emit, emit_snapshot, cancel_timers, call}
use my_vote_server.Session.Results.{is_active, next_revision}
use my_vote_server.Session.Lifecycle.{
  segment_ids, release, reopen_all, write_segment, reset, rollback,
}
use my_vote_server.Session.Steady.{
  Follows, same-Steady, emit-Steady, SameSegments, reopen_all-SameSegments,
}
use my_vote_server.Session.Order.{
  IsOrderly, contains-cut, distinct-take, cut_apart, All-take, absent-Follows,
}
use my_vote_server.Session.Handling.{Follow, Steady-Follow, Follow-trans}

segment_ids-snoc :
    (xs : List Segment) (x : Segment)
    → segment_ids (xs ++ x ∷ []) ≡ segment_ids xs ++ x.segment_id ∷ []
unfolding segment_ids
segment_ids-snoc [] x = refl
segment_ids-snoc (y ∷ ys) x = ap (λ r. y.segment_id ∷ r) (segment_ids-snoc ys x)

-- Below: what `release` does to the active segment when the segments from an index on go.
release-Follows :
    (a : Option ℕ) (n : ℕ) (xs : List Segment)
    → distinct (segment_ids xs) ≡ true
    → All (Follows a) xs
    → All (Follows (release (segment_ids (drop n xs)) a)) (take n xs)
unfolding release
release-Follows none n xs d h = All-take (Follows none) n xs h
release-Follows (some k) n xs d h =
    if_ind (λ a. All (Follows a) (take n xs)) (contains k (segment_ids (drop n xs))) _ _
      (λ e.
        absent-Follows k (take n xs) (cut_apart k n xs d e) (All-take (Follows (some k)) n xs h))
      (λ e. All-take (Follows (some k)) n xs h)

release-present :
    (a : Option ℕ) (k n : ℕ) (xs : List Segment)
    → (is_active a k ≡ true → contains k (segment_ids xs) ≡ true)
    → is_active (release (segment_ids (drop n xs)) a) k ≡ true
    → contains k (segment_ids (take n xs)) ≡ true
unfolding release is_active
release-present none k n xs h e = ground arith
release-present (some j) k n xs h e = ground (arith, contains-cut k n xs)

module _ {T : Type 0} where
  -- The segments from an index on go.
  cut-Follow :
      (n : ℕ) (s t : Session T)
      → t.segments ≡ take n s.segments
      → t.active_segment ≡ release (segment_ids (drop n s.segments)) s.active_segment
      → t.next_segment ≡ s.next_segment
      → t.generation_id ≡ s.generation_id
      → Follow s t
  cut-Follow n s t xs a next gen = record {
    orderly = λ o. record {
      follows = rw a (rw xs (release-Follows s.active_segment n s.segments o.unique o.follows));
      unique = rw xs (distinct-take n s.segments o.unique);
      named =
          λ k h. rw next (o.named k (kept k (sym (ap (λ r. contains k (segment_ids r)) xs) ∙ h)));
      present = λ k h. rw xs (
          release-present s.active_segment k n s.segments (o.present k)
            (sym (ap (λ r. is_active r k) a) ∙ h));
    };
    generation_up = rw gen omega arith;
    next_up = rw next omega arith;
    never_again = λ k le h. rw xs (gone k h);
  }
    where
      kept :
          (k : ℕ)
          → contains k (segment_ids (take n s.segments)) ≡ true
          → contains k (segment_ids s.segments) ≡ true
      kept k h = ground (arith, contains-cut k n s.segments)

      gone :
          (k : ℕ)
          → contains k (segment_ids s.segments) ≡ false
          → contains k (segment_ids (take n s.segments)) ≡ false
      gone k h = ground (arith, contains-cut k n s.segments)

  -- One more segment, which does not run, with the next number.
  snoc-Follow :
      (x : Segment) (s t : Session T)
      → t.segments ≡ s.segments ++ x ∷ []
      → x.segment_id ≡ s.next_segment + 1
      → is_running x.status ≡ false
      → t.active_segment ≡ s.active_segment
      → t.next_segment ≡ s.next_segment + 1
      → t.generation_id ≡ s.generation_id
      → Follow s t
  unfolding Follows
  snoc-Follow x s t xs i r a next gen = record {
    orderly = λ o. record {
      follows = rw a (
          rw xs (
            All-append (Follows s.active_segment) s.segments (x ∷ []) o.follows
              (r ∙ sym (idle o), tt)));
      unique = rw ids (distinct-snoc x.segment_id (segment_ids s.segments) o.unique (unused o));
      named = λ k h. rw next (below o k (sym (ap (contains k) ids) ∙ h));
      present = λ k h. rw ids (
          ground (
            arith,
            contains-append k (segment_ids s.segments) (x.segment_id ∷ []),
            o.present k (sym (ap (λ b. is_active b k) a) ∙ h),
          ));
    };
    generation_up = rw gen omega arith;
    next_up = rw next omega arith;
    never_again = λ k le h. rw ids (rw i (fresh k le h));
  }
    where
      ids : segment_ids t.segments ≡ segment_ids s.segments ++ x.segment_id ∷ []
      ids = ap segment_ids xs ∙ segment_ids-snoc s.segments x

      unused : IsOrderly s → contains x.segment_id (segment_ids s.segments) ≡ false
      unused o = elim (Bool-cases (contains x.segment_id (segment_ids s.segments))) [
        | inl t' ↦ absurd (omega (arith, o.named x.segment_id t', i))
        | inr f ↦ f
      ]

      idle : IsOrderly s → is_active s.active_segment x.segment_id ≡ false
      idle o = elim (Bool-cases (is_active s.active_segment x.segment_id)) [
        | inl t' ↦ absurd (ground (arith, o.present x.segment_id t', unused o))
        | inr f ↦ f
      ]

      below :
          IsOrderly s
          → (k : ℕ) → contains k (segment_ids s.segments ++ x.segment_id ∷ []) ≡ true
          → k ≤ s.next_segment + 1
      below o k h = elim (Bool-cases (contains k (segment_ids s.segments))) [
        | inl t' ↦ omega (arith, o.named k t')
        | inr f ↦ ground (arith, contains-append k (segment_ids s.segments) (x.segment_id ∷ []))
      ]

      fresh :
          (k : ℕ)
          → k ≤ s.next_segment
          → contains k (segment_ids s.segments) ≡ false
          → contains k (segment_ids s.segments ++ (s.next_segment + 1) ∷ []) ≡ false
      fresh k le h =
          ground (arith, contains-append k (segment_ids s.segments) ((s.next_segment + 1) ∷ []))

  pub write_segment-Follow :
      (settings : Settings) (time : ℕ) (u : Utterance T) (chosen : SegmentCandidate) (s : Session T)
      → Follow s (write_segment settings time u chosen s)
  unfolding write_segment
  write_segment-Follow settings time u chosen s = snoc-Follow _ s _ refl refl refl refl refl refl

module _ {T : Type 0} (u : Unicode) (settings : Settings) where
  pub reset-Follow : (s : Session T) → Follow s (reset u settings s)
  unfolding reset emit_snapshot call cancel_timers segment_ids is_active
  reset-Follow s = Follow-trans cleared-Follow (Steady-Follow (emit-Steady settings _ cleared))
    where
      cleared : Session T
      cleared = call cancel_all_jobs (
          cancel_timers (record s {
            generation_id = s.generation_id + 1;
            revision = s.revision + 1;
            utterances = [];
            segments = [];
            auto_id = none;
            active_segment = none;
          }))

      cleared-Follow : Follow s cleared
      cleared-Follow = record {
        orderly = λ o. record {
          follows = tt;
          unique = refl;
          named = λ k h. ground arith;
          present = λ k h. ground arith;
        };
        generation_up = omega arith;
        next_up = omega arith;
        never_again = λ k le h. refl;
      }

  pub rollback-Follow : (index : ℕ) (s : Session T) → Follow s (rollback u settings index s)
  unfolding rollback emit_snapshot call next_revision SameSegments
  rollback-Follow index s = Follow-trans released-Follow (
      Follow-trans (Steady-Follow (same-Steady released told refl refl refl refl))
        (Steady-Follow (emit-Steady settings (shown (snapshot u translation_update told)) told)))
    where
      affected : List Segment
      affected = drop index s.segments

      taken : Session T
      taken = record s { segments = take index s.segments }

      cut : Session T
      cut = reopen_all affected taken

      released : Session T
      released = record cut { active_segment = release (segment_ids affected) cut.active_segment }

      told : Session T
      told = next_revision (call (invalidate_segments (segment_ids affected)) released)

      released-Follow : Follow s released
      released-Follow =
          let (xs, a, next, gen) = reopen_all-SameSegments affected taken in
          cut-Follow index s released xs (ap (release (segment_ids affected)) a) next gen

  pub withdrawn-absent :
      (index : ℕ) (s : Session T) (k : ℕ)
      → distinct (segment_ids s.segments) ≡ true
      → contains k (segment_ids (drop index s.segments)) ≡ true
      → contains k (segment_ids (rollback u settings index s).segments) ≡ false
  unfolding rollback emit_snapshot call next_revision SameSegments emit
  withdrawn-absent index s k unique gone =
      ap (λ xs. contains k (segment_ids xs)) kept ∙ cut_apart k index s.segments unique gone
    where
      taken : Session T
      taken = record s { segments = take index s.segments }

      kept : (rollback u settings index s).segments ≡ take index s.segments
      kept = ground (arith, (reopen_all-SameSegments (drop index s.segments) taken).0)
