-- ===== src/Authz.antt =====
-- overstate_ui/authz.py: scoped access control, a module for each part of the file.
pub mod Catalog
pub mod Flags
pub mod Grains
pub mod Scopes
pub mod Entries
pub mod Decide
pub mod Targets
pub mod Functions
pub mod Delegation
pub mod Prefixes
pub mod Memo
pub mod RoleCache
pub mod Backfill
pub mod Gates
pub mod Sample
pub mod Examples
