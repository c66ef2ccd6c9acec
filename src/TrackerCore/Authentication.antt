-- ===== src/TrackerCore/Authentication.antt =====
-- packages/tracker-core/src/authentication: the keys of peers, their handler, and the service that
-- authenticates a request.
pub mod Key
pub mod Handler
