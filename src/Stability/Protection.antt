-- ===== src/Stability/Protection.antt =====
-- What a StabilityTracker of app/streaming/stability.py never takes back.
use my_vote_server.Base.{
  ℕ, zero, suc, ◌≤◌, ◌≡◌, refl, ap, subst, ◌∙◌, inl, inr, Bool, true, false, ◌&&◌, ◌||◌, Option,
  none, some, [], ◌∷◌, arith, ltb, Bool-cases, if_ind, is_some, length, take, Text, starts_with,
}
use my_vote_server.Source.Text.{Unicode}
use my_vote_server.Stability.{
  StabilitySettings, StabilityResult, StabilityTracker, reset, make, now_of, Confidences,
  has_conflict, assess, evaluate, is_late, hear, observe, refresh, refuses_commit, commit,
}

starts_with_refl : (text : Text) → starts_with text text ≡ true
starts_with_refl [] = refl
starts_with_refl (c ∷ text) = ground (arith, starts_with_refl text)

starts_with_trans :
    (a b c : Text) → starts_with a b ≡ true → starts_with b c ≡ true → starts_with a c ≡ true
starts_with_trans a b [] h k = refl
starts_with_trans a [] (z ∷ c) h k = absurd (ground (arith, k))
starts_with_trans [] (y ∷ b) (z ∷ c) h k = absurd (ground (arith, h))
starts_with_trans (x ∷ a) (y ∷ b) (z ∷ c) h k = ground (arith, h, k, starts_with_trans a b c)

starts_with-take :
    (n : ℕ) (text p : Text)
    → starts_with text p ≡ true
    → length p ≤ n
    → starts_with (take n text) p ≡ true
starts_with-take n text [] h k = refl
starts_with-take n [] (y ∷ p) h k = absurd (ground (arith, h))
starts_with-take zero (x ∷ text) (y ∷ p) h k = absurd (omega (arith, k))
starts_with-take (suc n) (x ∷ text) (y ∷ p) h k =
    ground (arith, h, starts_with-take n text p (ground (arith, h)) (omega (arith, k)))

-- The tracker under any calls but a commit that reconciles with a final hypothesis.
pub data Step (u : Unicode) (t : StabilityTracker) : StabilityTracker → Type 0 where
  observes :
      (text : Text) (sequence : ℕ) (is_final : Bool) (confidences : Confidences) (pause : Option ℕ)
      (clock : ℕ) (r : StabilityTracker)
      → observe u text sequence is_final confidences pause clock t ≡ some r
      → Step u t r
  refreshes : (clock : ℕ) → Step u t (refresh u clock t)
  commits :
      (char_end : ℕ) (allow_final_reconcile : Bool) (clock : ℕ) (r : StabilityTracker)
      → (allow_final_reconcile && t.final) ≡ false
      → commit u char_end allow_final_reconcile clock t ≡ some r
      → Step u t r

pub data Reach (u : Unicode) (t : StabilityTracker) : StabilityTracker → Type 0 where
  here : Reach u t t
  next : {r s : StabilityTracker} → Reach u t r → Step u r s → Reach u t s

-- The last result speaks of the text and the protected prefix as they are.
IsCurrent : StabilityTracker → Type 0
IsCurrent t = (r : StabilityResult) → t.result ≡ some r → r.prefix_conflict ≡ has_conflict t

record Keeps (t s : StabilityTracker) : Type 0 where
  current : IsCurrent s
  protected : starts_with s.committed_text t.committed_text ≡ true

evaluate-IsCurrent : (u : Unicode) (now : ℕ) (t : StabilityTracker) → IsCurrent (evaluate u now t)
unfolding IsCurrent evaluate assess has_conflict
evaluate-IsCurrent u now t r e = ground (arith, e)

kept : (t s : StabilityTracker) → IsCurrent s → s.committed_text ≡ t.committed_text → Keeps t s
kept t s c e = record {
  current = c;
  protected = ap (λ a. starts_with a t.committed_text) e ∙ starts_with_refl t.committed_text;
}

commit-protected :
    (char_end : ℕ) (allow : Bool) (t : StabilityTracker) (r : StabilityResult)
    → (allow && t.final) ≡ false
    → r.prefix_conflict ≡ has_conflict t
    → refuses_commit char_end allow t (some r) ≡ false
    → starts_with (take char_end t.text) t.committed_text ≡ true
unfolding refuses_commit has_conflict
commit-protected char_end allow t r w c h =
    starts_with-take char_end t.text t.committed_text (ground (arith, w, c, h))
      (ground (arith, w, h))

impossible :
    (char_end : ℕ) (allow : Bool) (t : StabilityTracker)
    → refuses_commit char_end allow t none ≡ false
    → ⊥
unfolding refuses_commit
impossible char_end allow t h = ground (arith, h)

result-protected :
    (char_end : ℕ) (allow : Bool) (t : StabilityTracker) (o : Option StabilityResult)
    → (allow && t.final) ≡ false
    → IsCurrent t
    → t.result ≡ o
    → refuses_commit char_end allow t o ≡ false
    → starts_with (take char_end t.text) t.committed_text ≡ true
unfolding IsCurrent
result-protected char_end allow t none w c e h = absurd (impossible char_end allow t h)
result-protected char_end allow t (some r) w c e h = commit-protected char_end allow t r w (c r e) h

commit-Keeps :
    (u : Unicode) (char_end : ℕ) (allow : Bool) (clock : ℕ) (t s : StabilityTracker)
    → (allow && t.final) ≡ false
    → IsCurrent t
    → commit u char_end allow clock t ≡ some s
    → Keeps t s
unfolding commit evaluate
commit-Keeps u char_end allow clock t s w c e =
    elim (Bool-cases (refuses_commit char_end allow t t.result)) [
      | inl bad ↦ absurd (ground (arith, e, bad))
      | inr fine ↦ subst (Keeps t) {x = made} {y = s} (ground (arith, e, fine)) (record {
        current =
            evaluate-IsCurrent u (now_of clock t.last_time)
              (record t { committed_text = take char_end t.text });
        protected = result-protected char_end allow t t.result w c refl fine;
      })
    ]
  where
    made : StabilityTracker
    made =
        evaluate u (now_of clock t.last_time) (record t { committed_text = take char_end t.text })

observe-Keeps :
    (u : Unicode) (text : Text) (sequence : ℕ) (is_final : Bool) (confidences : Confidences)
    (pause : Option ℕ) (clock : ℕ) (t s : StabilityTracker)
    → observe u text sequence is_final confidences pause clock t ≡ some s
    → Keeps t s
unfolding observe evaluate hear
observe-Keeps u text sequence is_final confidences pause clock t s e =
    elim (Bool-cases
      (ltb t.settings.max_source_chars (length text) || is_late sequence t.sequence)) [
        | inl bad ↦ absurd (ground (arith, e, bad))
        | inr fine ↦
            subst (Keeps t) {x = evaluate u now heard} {y = s} (ground (arith, e, fine))
              (kept t (evaluate u now heard) (evaluate-IsCurrent u now heard) refl)
      ]
  where
    now : ℕ
    now = now_of clock t.last_time

    heard : StabilityTracker
    heard = hear u text sequence is_final confidences pause now t

refresh-Keeps :
    (u : Unicode) (clock : ℕ) (t : StabilityTracker) → IsCurrent t → Keeps t (refresh u clock t)
unfolding refresh evaluate
refresh-Keeps u clock t c =
    if_ind (Keeps t) (is_some t.sequence) _ _
      (λ e.
        kept t (evaluate u (now_of clock t.last_time) t)
          (evaluate-IsCurrent u (now_of clock t.last_time) t) refl)
      (λ e. kept t t c refl)

Step-Keeps : (u : Unicode) {t s : StabilityTracker} → IsCurrent t → Step u t s → Keeps t s
Step-Keeps u {t} c (observes text sequence is_final confidences pause clock s e) =
    observe-Keeps u text sequence is_final confidences pause clock t s e
Step-Keeps u {t} c (refreshes clock) = refresh-Keeps u clock t c
Step-Keeps u {t} c (commits char_end allow clock s w e) =
    commit-Keeps u char_end allow clock t s w c e

Reach-Keeps : (u : Unicode) {t s : StabilityTracker} → IsCurrent t → Reach u t s → Keeps t s
Reach-Keeps u {t} c here = kept t t c refl
Reach-Keeps u {t} {s} c (next {r} before st) =
    let first = Reach-Keeps u c before in
    let last = Step-Keeps u first.current st in
    record {
      current = last.current;
      protected =
          starts_with_trans s.committed_text r.committed_text t.committed_text last.protected
            first.protected;
    }

make-IsCurrent : (v : StabilitySettings) (t : StabilityTracker) → make v ≡ some t → IsCurrent t
unfolding make reset IsCurrent
make-IsCurrent v t m r e = absurd (ground (arith, m, e))

-- Whatever hypotheses a new tracker hears and whatever prefixes are committed, a prefix that is
-- protected is never taken back or changed: the protected text of a later state starts with that of
-- an earlier one, unless a commit was allowed to reconcile with a final hypothesis.
pub committed_text-protected :
    (u : Unicode) (v : StabilitySettings) (t s r : StabilityTracker)
    → make v ≡ some t
    → Reach u t s
    → Reach u s r
    → starts_with r.committed_text s.committed_text ≡ true
committed_text-protected u v t s r m before after =
    (Reach-Keeps u (Reach-Keeps u (make-IsCurrent v t m) before).current after).protected
