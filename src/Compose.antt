-- ===== src/Compose.antt =====
-- nix/modules/services/compose-stack/compose-reload.py: applies a changed compose stack without
-- taking it down. `Docker` has the calls of class `Stack`, `Mounts` the fingerprints of mounted
-- config, `Plan` the choice of services, `Handoff` the replacement of one service's container, and
-- `Reload` the whole command.
pub mod Docker
pub mod Mounts
pub mod Plan
pub mod Handoff
pub mod Reload
