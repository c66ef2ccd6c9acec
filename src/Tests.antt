-- ===== src/Tests.antt =====
-- Each property at a concrete input, with concrete versions of the interfaces.
mod Samples
mod Stores
mod Torrents
mod Handlers
mod Access
mod Server
mod Statistics
mod Packets
mod Requests
mod Threads
mod Database
mod Drivers
mod Operations
mod Strict
