-- ===== src/Primitives.antt =====
-- packages/primitives/src: the data that every part of the tracker shares.
pub mod Net
pub mod Peer
pub mod Metrics
pub mod Core
