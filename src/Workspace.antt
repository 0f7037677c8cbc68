-- ===== src/Workspace.antt =====
-- The tabs and panels of the workspace: packages/workspace/src/index.ts and
-- apps/web/src/app/core/state/workspace.store.ts.
pub mod State
pub mod Refs
pub mod Store
pub mod Persistence
pub mod Active
pub mod Sanitizing
pub mod Steps
mod Tests
