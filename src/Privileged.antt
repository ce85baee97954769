-- ===== src/Privileged.antt =====
-- src/meraki_openconnect/privileged.py: the root-owned helper, its installation and its resolvers.
pub mod Shell
pub mod Install
pub mod Bundle
pub mod Loader
pub mod Uninstall
pub mod Plan
pub mod Resolver
pub mod Tests
