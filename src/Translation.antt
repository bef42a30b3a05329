-- ===== src/Translation.antt =====
-- The translation package: app/translation/worker.py and app/translation/scheduler.py.
pub mod Job
pub mod Scheduler
