-- ===== src/Source.antt =====
-- The recognised source text: app/utils/text.py, app/streaming/revision.py and
-- app/streaming/stability.py.
pub mod Text
pub mod Revision
mod Samples
