-- ===== src/Cron.antt =====
-- resource/cron: the schedule fields, the markers of managed blocks, and the rewriting of a crontab.
pub mod Fields
pub mod Markers
pub mod Job
pub mod Lines
pub mod Merge
pub mod Adopt
pub mod Validate
pub mod Reconcile
