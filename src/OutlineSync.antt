-- ===== src/OutlineSync.antt =====
-- nix/docker-compose/outline-group-sync/sync.py: brings the groups of an Outline server in line with
-- a directory. `Pages` has the paginated reads, `Rows` the rows and their indexing, `Plan` has
-- `plan_sync`, and `Reconcile` a whole run.
pub mod Rows
pub mod Pages
pub mod Plan
pub mod Reconcile
