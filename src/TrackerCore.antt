-- ===== src/TrackerCore.antt =====
-- packages/tracker-core/src: the announce and scrape handlers, the whitelist, the authentication
-- keys and the jobs on torrents.
pub mod InMemory
pub mod Announce
pub mod Torrents
pub mod Whitelist
pub mod Scrape
pub mod Authentication
pub mod Databases
