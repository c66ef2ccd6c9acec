-- ===== src/Udp.antt =====
-- src/servers/udp: the UDP server, from the cookies and bans up to its main loop, and its statistics.
pub mod Banning
pub mod ActiveRequests
pub mod ConnectionCookie
pub mod Statistics
pub mod Protocol
pub mod Platform
pub mod Handlers
pub mod Processor
pub mod Launcher
