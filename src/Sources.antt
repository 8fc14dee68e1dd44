-- ===== src/Sources.antt =====
-- Problems from git repositories (apps/api/agentbenchx/git_sources.py): what a commit offers
-- (Names, Tasks, Discovery), the repository (Repository), and how its tasks are taken into the tables (Catalogue,
-- Sync).
pub mod Names
pub mod Tasks
pub mod Discovery
pub mod Split
pub mod Aborts
pub mod Catalogue
pub mod Repository
pub mod Rows
pub mod Growth
pub mod Sync
pub mod Synced
pub mod Repeated
