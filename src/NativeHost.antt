-- ===== src/NativeHost.antt =====
-- native_host.py: the bridge between Chrome and the private exchange.
pub mod Message
pub mod Endpoint
pub mod Bridge
pub mod Manifest
