-- ===== src/Lib.antt =====
-- Torrust Tracker, a BitTorrent tracker: which peers take part in the download of which torrent, who
-- may ask, and how the UDP and HTTP servers read a request.
--
-- An announce goes through these parts. The server takes the request apart (Http, Udp); the core checks
-- the key of the client (authentication) and the torrent (whitelist), stores the peer in the torrent
-- repository and answers with other peers and the statistics (announce handler). A job removes the
-- peers that were not heard of for some time (torrents manager). The whitelist, the keys and the
-- numbers of downloads are in a database too.
--
-- The files, by the code they model:
--   Prelude: the names, types and lemmas that all files share; OrderedMap and HashMap: the maps of the
--     standard library, by what the code uses of them.
--   Primitives: packages/primitives; Configuration: packages/configuration.
--   TorrentRepository/PeerList, Entry: packages/torrent-repository/src/entry. A torrent is its swarm, an
--     ordered map from peer ids to peers, and its number of downloads.
--   TorrentRepository/Repository and RwLockStd: skip_map_mutex_std.rs, which the tracker uses, and
--     rw_lock_std.rs, of packages/torrent-repository/src/repository. A repository is an ordered map
--     from info hashes to torrents.
--   TrackerCore/InMemory, Announce, Scrape, Torrents, Whitelist, Authentication: packages/tracker-core,
--     the files that each names in its first comment.
--   TorrentRepository/Shared: rw_lock_std_mutex_std.rs and dash_map_mutex_std.rs of the same folder, an
--     announce in the steps between which other threads can run.
--   Udp/Banning, ActiveRequests, ConnectionCookie: src/servers/udp; Udp/Statistics:
--     src/packages/udp_tracker_core/statistics.
--   Udp/Protocol, Platform, Handlers: src/servers/udp/handlers.rs, with error.rs, peer_builder.rs and the
--     container of src/container.rs; Udp/Processor and Launcher: processor.rs and launcher.rs of
--     src/servers/udp/server. A state of the server is its container, the buffer of the active requests, the
--     tasks that run and the packets sent; its steps are those of the main loop, of the tasks and of the
--     cleaning of the bans.
--   Http/PeerIpResolver, Query, AnnounceRequest: packages/http-protocol/src/v1; Http/Statistics:
--     src/packages/http_tracker_core/statistics; Http/ScrapeRequest and Responses:
--     packages/http-protocol/src/v1/requests/scrape.rs and responses.
--   Http/Extractors, Handlers: src/servers/http/v1, the extractors, handlers and services of announces and
--     scrapes.
--   TrackerCore/Databases: packages/tracker-core/src/databases, the drivers of SQLite and MySQL (driver/sqlite.rs,
--     driver/mysql.rs) over what they use of the crates and the databases (Rusqlite, MysqlCrate).
--   Api: src/servers/apis, its middleware for the token (v1/middlewares/auth.rs) and the handlers of the
--     whitelist, the keys and the torrents (v1/context).
--   App: src/app.rs, what the start of the tracker loads and which jobs it starts.
--   Servers: the announces of the two servers against each other.
--   Tests: concrete values, concrete versions of the interfaces, and examples.
-- In a folder of the same name, Laws and similar files hold the theorems on a model; PeerIpResolver
-- holds its one theorem itself.
--
-- State is passed and returned: an operation that takes `&mut self`, or changes what is behind a lock or
-- a database, returns what it leaves behind. Operations of the core follow one another, and a task of the
-- UDP server runs to its end between two steps of the main loop; the interleavings of threads within an
-- announce are those of TorrentRepository/Shared. Results that Rust spells `Result` are `ok` or `err`, and
-- a panic is a value too where a theorem speaks of it. Info hashes and peer ids are the numbers that
-- their 20 bytes spell, most significant first, so that their order is that of the bytes. A text is
-- the list of its code points. Times are nanoseconds since the epoch. Machine integers wrap where the
-- release build wraps, with the modulus written out; a `usize` that counts entries in memory does not
-- reach its bound. All loops are recursions on the list that they go over, so no fuel is used. The
-- decimal digits that Http/AnnounceRequest/Decimal writes are 20 at most, which is enough for 64 bits.
--
-- Interfaces, with laws that state what their comments promise: the tables of the database
-- (databases/mod.rs), the block cipher, the counting Bloom filter, the multimap of a query, the
-- percent decoding, the bencoding, the packets of the UDP protocol, the hash of an address, the order of a
-- hash map, and the arithmetic of `f64`. The random generator and the clock
-- are arguments, as is what a task answers when the UDP server asks whether it has finished.
--
-- Not modelled: the creation of the tables of SQLite, sockets, and the servers behind the jobs, which are input and
-- output; the bencode format, a copy of another project's library; the texts of the errors; the
-- statistics that the API shows, the clients and the console.
pub mod Prelude
pub mod OrderedMap
pub mod HashMap
pub mod Primitives
pub mod Api
pub mod App
pub mod Configuration
pub mod TorrentRepository
pub mod TrackerCore
pub mod Udp
pub mod Servers
pub mod Http
pub mod Tests
