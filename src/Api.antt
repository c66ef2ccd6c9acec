-- ===== src/Api.antt =====
-- src/servers/apis: the REST API of the tracker. Its routes check the token of a request
-- (v1/middlewares/auth.rs) and hand it to the handlers of its context.
pub mod Middleware
pub mod Whitelist
pub mod AuthKey
pub mod Torrent
