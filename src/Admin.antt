-- ===== src/Admin.antt =====
-- admin_security.py: the logins and the sessions of the administrator.
pub mod State
pub mod Sessions
pub mod Calls
pub mod Change
pub mod Rotation
pub mod Codes
pub mod Access
mod Table
pub mod Bounds
pub mod Endings
mod Scenarios
