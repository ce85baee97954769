-- ===== src/Settings.antt =====
-- src/meraki_openconnect/settings.py: the settings of one machine and their validation.
pub mod Base64
pub mod Checks
pub mod Pin
pub mod Origin
pub mod Machine
pub mod Store
pub mod Tests
