-- ===== src/Lib.antt =====
-- A model of the text translation service of MyVoteServer (the Python package app) and of parts
-- of its caption engine (MyVote-Speaker-Update), with proofs of what makes it correct.
--
-- The service takes the growing hypotheses of a speech recogniser and translates them piece by
-- piece. A session (app/session/state.py) tokenises each hypothesis, finds its stable prefix,
-- cuts complete segments from it, and hands them to a scheduler that all sessions share; when a
-- hypothesis is revised, the segments that it touches are taken back. A translated segment stays
-- a draft until it is stable.
--
-- Files and what they model:
--
-- - Base: shared names, Boolean tests, lists and Python dictionaries over the native numbers.
-- - Source/Text: app/utils/text.py. A text is the list of its code points; a token is a span of
--   it. What Python's Unicode tables say of a code point is the parameter Unicode.
-- - Source/Revision: app/streaming/revision.py, plan_revision; Difference says what the
--   difference of two hypotheses is, Kept what a plan keeps.
-- - Draft: app/streaming/commit.py, DraftCommitter. The clock counts picoseconds.
-- - Policy: app/streaming/policy.py, ReadWritePolicy.decide. Scores are whole parts of 10 ^ 12.
-- - Stability: app/streaming/stability.py, StabilityTracker. Scores are exact ratios, of parts
--   of 10 ^ 12, where the source has floats; Protection proves what is never taken back,
--   Agreement and Heard what makes a token stable.
-- - Context: app/context/manager.py, ContextManager; Context/Glossary: app/context/glossary.py,
--   matching_entries, with str.casefold as the parameter fold.
-- - Translation/Job: app/translation/worker.py, TranslationJob.
-- - Translation/Scheduler: app/translation/scheduler.py, TranslationScheduler. Each operation is
--   the body that runs under the lock of the condition and is one step; Steps has the steps of
--   callers and workers in any order, Invariant the bookkeeping, Pool the workers that `start`
--   makes, each of which takes only when its round before has ended, and the files beside them
--   prove what each operation keeps.
-- - Session: app/session/state.py, TranslationSession. State has its data, Output what it sends
--   and its timers, Dispatch and Results the way of a segment to the scheduler and back, Ingest
--   the taking in of a hypothesis, Select the loop that cuts an utterance into segments,
--   Lifecycle the other handlers. Each handler runs under the session's lock and is one step of
--   Histories; an exception that leaves a handler is a value. The other files prove what each
--   handler keeps.
--
-- - Engine/Captions: MyVote-Speaker-Update/src/myvote_engine/captions.py, the captions of a
--   recording. Segments and Groups have the data and what its __post_init__ methods check, Store
--   and Replacing the methods of CaptionStore, each one step under the store's lock, and Export
--   the subtitle files. Histories has the steps in any order; Evolution, Editing, Revising,
--   Lineage and Transactions prove what each of them keeps, Export/Timing, Export/Boundaries,
--   Export/Merging and Export/Stamps what the subtitles show and when.
-- - Engine/Ingress: MyVote-Speaker-Update/src/myvote_engine/ingress_timing.py, IngressTimeline,
--   with the AudioFrame of audio.py. Receipts and Windows prove what it keeps of the frames and
--   gaps that it was told of, Lookups what anchor finds, Answers when it does.
-- - Engine/Inference: MyVote-Speaker-Update/src/myvote_engine/inference_scheduler.py,
--   AsrInferenceScheduler. A future is a number, and those that are done are in a dictionary;
--   each piece of the code between two awaits is one step of Histories. Bookkeeping and Picking
--   prove what the steps keep, Choosing which call is next.
-- - Engine/Admission: MyVote-Speaker-Update/src/myvote_engine/priority_translation.py,
--   TranslationAdmission, whose acquire is a step for each test of its condition and one for its
--   finally block; Exclusion counts the callers.
--
-- Of a caption, identifiers and languages are numbers that keep the order of the strings, with 0
-- for the blank one; an offset that may be negative is later or earlier by a number. The size of
-- a group's JSON and the text of an identifier are the parameters encoded_bytes and spell, since
-- the standard library writes them. CaptionStore.from_snapshot and export_json are not modelled.
-- A held group to which _put_segment gives its children is not checked again for its size, which
-- the source would answer with a ValueError.
--
-- Identifiers of sessions and segments are numbers, since the code only compares them; the empty
-- identifier is 0. The methods of an object are functions to the new record. A ValueError and
-- its kin are a none or an error value. Loops recur on the list that they walk; the loops of
-- tokenize take the length of the text as fuel. The theorem on tokenize shows that it is enough
-- for the outer loop, as the tokens cover the whole text, and Source/Text/Fuel that more makes
-- no difference to either loop. The loop that cuts segments has one more step than the limit on
-- segments leaves room for.
--
-- Of a session, the visit to all utterances in _evaluate, the limit on events per second, and
-- the change of its configuration and glossary are not modelled, nor are its metrics and
-- last_activity. Its handlers reach the stability tracker as the record Tracking, the segmenter
-- the record Selecting; the scheduler's answer to submit, the readings of the clock and the
-- glossary entries of a text are arguments of its handlers.
--
-- Not modelled: the HTTP and WebSocket layer, the clients of the language model, declarative
-- validation of settings and messages, audio processing, the engine under MyVote-Mac-Demo, and
-- of MyVote-Speaker-Update all but the files named above.
pub mod Base
pub mod Context
pub mod Draft
pub mod Engine
pub mod Policy
pub mod Session
pub mod Source
pub mod Stability
pub mod Translation
