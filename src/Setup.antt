-- ===== src/Setup.antt =====
-- src/meraki_openconnect/setup.py: the setup of a machine, from a profile to the installed policy.
pub mod Steps
pub mod Summary
pub mod Run
pub mod Command
