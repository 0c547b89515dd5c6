-- ===== src/Socks5.antt =====
-- socks5: the proxy's handshake, as RFC 1928 describes it.
pub mod Address
pub mod Server
pub mod Proxy
pub mod Running
mod Examples
