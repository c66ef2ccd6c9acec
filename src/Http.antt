-- ===== src/Http.antt =====
-- packages/http-protocol/src/v1: the query of a request, the announce request that is read from it,
-- and the address of the client; and the statistics of the HTTP tracker.
pub mod Query
pub mod AnnounceRequest
pub mod PeerIpResolver
pub mod Statistics
pub mod ScrapeRequest
pub mod Extractors
pub mod Handlers
pub mod Responses
