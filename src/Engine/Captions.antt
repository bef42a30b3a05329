-- ===== src/Engine/Captions.antt =====
-- Captions on the source audio timeline: MyVote-Speaker-Update/src/myvote_engine/captions.py.
pub mod Segments
pub mod Groups
pub mod Store
pub mod Replacing
pub mod Evolution
pub mod Editing
pub mod Revising
pub mod Lineage
pub mod Transactions
pub mod Histories
mod Samples
pub mod Export
