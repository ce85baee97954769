-- ===== src/Profile.antt =====
-- src/meraki_openconnect/profile.py: the organization profile.
pub mod Model
pub mod Canonical
pub mod Checks
pub mod Parse
