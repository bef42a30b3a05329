-- ===== src/Engine/Captions/Histories.antt =====
-- A CaptionStore of MyVote-Speaker-Update/src/myvote_engine/captions.py under any sequence of calls.
-- A call that raises is no step, since it leaves the store as it was.
use my_vote_server.Base.{ℕ, ◌≡◌, refl, Bool, some, List, arith, Text, get, has}
use my_vote_server.Source.Text.{Unicode}
use my_vote_server.Engine.Captions.Segments.{CaptionSegment, CaptionResultCorrection}
use my_vote_server.Engine.Captions.Groups.{CaptionGroupReplacement}
use my_vote_server.Engine.Captions.Store.{
  CaptionStore, make, upsert_source, apply_translation, set_provider_generation,
  revise_translations, SpeakerUpdate, update_speaker, set_speaker_alias, supersede_segment,
}
use my_vote_server.Engine.Captions.Replacing.{old_held, Status, replace_group, apply_held_group}
use my_vote_server.Engine.Captions.Evolution.{Grows, IsSound, Moves, Moves-refl, Moves-trans}
use my_vote_server.Engine.Captions.Editing.{
  apply_translation-Moves, update_speaker-Moves, upsert_source-Moves, set_provider_generation-Moves,
  set_speaker_alias-Moves, supersede_segment-Moves,
}
use my_vote_server.Engine.Captions.Revising.{revise_translations-Moves}
use my_vote_server.Engine.Captions.Transactions.{replace_group-Moves, apply_held_group-Moves}

pub data Step (u : Unicode) (s : CaptionStore) : CaptionStore → Type 0 where
  hears : (x : CaptionSegment) (r : Bool × CaptionStore) → upsert_source x s ≡ some r → Step u s r.1
  translates :
      (k revision generation : ℕ) (text : Text) (language : ℕ) (completed : Bool)
      (r : Bool × CaptionStore)
      → apply_translation u k revision generation text language completed s ≡ some r
      → Step u s r.1
  changes_provider :
      (generation : ℕ) (r : Bool × CaptionStore)
      → set_provider_generation generation s ≡ some r
      → Step u s r.1
  revises :
      (cs : List CaptionResultCorrection) (generation : ℕ) (r : Bool × CaptionStore)
      → revise_translations cs generation s ≡ some r
      → Step u s r.1
  assigns :
      (w : SpeakerUpdate) (r : Bool × CaptionStore) → update_speaker w s ≡ some r → Step u s r.1
  names :
      (k : ℕ) (name : Text) (r : Bool × CaptionStore)
      → set_speaker_alias u k name s ≡ some r
      → Step u s r.1
  supersedes :
      (k : ℕ) (ids : List ℕ) (r : Bool × CaptionStore)
      → supersede_segment u k ids s ≡ some r
      → Step u s r.1
  replaces :
      (g : CaptionGroupReplacement) (most : ℕ) (allow_manual : Bool) (r : Status × CaptionStore)
      → replace_group g most allow_manual s ≡ some r
      → Step u s r.1
  applies :
      (gid revision most : ℕ) (r : Bool × CaptionStore)
      → apply_held_group gid revision most s ≡ some r
      → Step u s r.1

pub data Reach (u : Unicode) (s : CaptionStore) : CaptionStore → Type 0 where
  here : Reach u s s
  next : {t r : CaptionStore} → Reach u s t → Step u t r → Reach u s r

Step-Moves : (u : Unicode) {s t : CaptionStore} → IsSound s → Step u s t → Moves s t
Step-Moves u {s} v (hears x r e) = upsert_source-Moves x s r v e
Step-Moves u {s} v (translates k revision generation text language completed r e) =
    apply_translation-Moves u k revision generation text language completed s r v e
Step-Moves u {s} v (changes_provider generation r e) =
    set_provider_generation-Moves generation s r v e
Step-Moves u {s} v (revises cs generation r e) = revise_translations-Moves cs generation s r v e
Step-Moves u {s} v (assigns w r e) = update_speaker-Moves w s r v e
Step-Moves u {s} v (names k name r e) = set_speaker_alias-Moves u k name s r v e
Step-Moves u {s} v (supersedes k ids r e) = supersede_segment-Moves u k ids s r v e
Step-Moves u {s} v (replaces g most allow_manual r e) =
    replace_group-Moves g most allow_manual s r v e
Step-Moves u {s} v (applies gid revision most r e) =
    apply_held_group-Moves gid revision most s r v e

Reach-Moves : (u : Unicode) {s t : CaptionStore} → IsSound s → Reach u s t → Moves s t
Reach-Moves u {s} v here = Moves-refl s v
Reach-Moves u v (next r st) =
    let moved = Reach-Moves u v r in Moves-trans moved (Step-Moves u moved.sound st)

make-IsSound : (session generation : ℕ) → IsSound (make session generation)
unfolding make get has old_held
make-IsSound session generation = record {
  keyed = λ k x e. ground arith;
  apart = λ k e. refl;
  indexed = λ gid k e. ground arith;
}

-- In a store that was made empty, whatever calls were made, each caption stands under its own
-- identifier; no caption is both of the projection and a held alternative; and each alternative of
-- a group that is held is listed under that group.
pub make-Reach-IsSound :
    (u : Unicode) (session generation : ℕ) (s : CaptionStore)
    → Reach u (make session generation) s
    → IsSound s
make-Reach-IsSound u session generation s r =
    (Reach-Moves u (make-IsSound session generation) r).sound

-- Whatever calls are made of a store that was made empty, from any later state on, no caption is
-- lost, and each evolves: its identifier and its track stay; its source revision and its speaker
-- revision do not fall; while the source revision stays, its words and times stay; a speaker that
-- was set by hand stays set by hand; and once it is superseded it does not change at all.
pub Reach-Grows :
    (u : Unicode) (session generation : ℕ) (s t : CaptionStore)
    → Reach u (make session generation) s
    → Reach u s t
    → Grows s.segments t.segments
Reach-Grows u session generation s t before after =
    (Reach-Moves u (make-Reach-IsSound u session generation s before) after).grows
