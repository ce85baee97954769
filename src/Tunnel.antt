-- ===== src/Tunnel.antt =====
-- src/meraki_openconnect/tunnel.py: the foreground controller of the privileged tunnel worker.
pub mod Errors
pub mod Stream
pub mod Frame
pub mod Session
pub mod World
pub mod Helper
pub mod Store
pub mod Run
