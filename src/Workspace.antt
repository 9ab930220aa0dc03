-- ===== src/Workspace.antt =====
-- The module apps/workspace: workspaces, their members and the members' roles.
pub mod Model
pub mod Slugs
pub mod Repository
pub mod Workspaces
pub mod Members
pub mod Counting
pub mod Governance
pub mod Requests
pub mod Operations
pub mod Promises
pub mod Creation
pub mod Interleaving
pub mod Listing
pub mod Access
