-- ===== src/Engine.antt =====
-- The engine of MyVote-Speaker-Update/src/myvote_engine.
pub mod Captions
pub mod Ingress
pub mod Inference
pub mod Admission
