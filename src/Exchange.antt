-- ===== src/Exchange.antt =====
-- callback.py and extension_setup.py: the private exchanges with Chrome's native host.
pub mod Message
pub mod Endpoint
pub mod Server
pub mod Delivered
pub mod Token
pub mod Permission
pub mod Receipt
