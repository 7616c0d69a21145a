-- ===== src/Tls.antt =====
-- The TLS interface: src/tls.c.
pub mod Structs
pub mod Openssl
pub mod Ssl
pub mod Config
pub mod Socket
pub mod Data
pub mod Pipe
pub mod Peer
pub mod Connection
pub mod Client
pub mod Server
pub mod MemBioClient
pub mod MemBioServer
pub mod Alpn
pub mod CString
pub mod Keylog
