-- ===== src/Tests.antt =====
-- Concrete runs of the theorems.
pub mod Lookup
pub mod Opts
pub mod Cpup
pub mod Text
pub mod Disk
pub mod Remove
pub mod Unlink
pub mod Create
pub mod Branches
pub mod Names
pub mod Manage
pub mod Vdir
