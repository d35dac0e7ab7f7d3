-- ===== src/Campaign.antt =====
-- internal/core/campaign.go: bulk sending. `Control` is the pause, resume and cancel of a running
-- campaign, `Import` the import of its recipients, `Launches` the ways in which it comes to run,
-- `Pipeline` the feeder, the workers and the collector of results, `Worker` one worker over SMTP.
pub mod Control
pub mod Import
pub mod Launches
pub mod Pipeline
pub mod Worker
