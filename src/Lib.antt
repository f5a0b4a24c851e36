-- ===== src/Lib.antt =====
-- heyfil: the monitor of FileCoin storage providers and of their indexing.
--
-- The program asks a FileCoin API for the state market participants, checks each of them over
-- libp2p and against a network indexer, announces the heads of those that publish on the expected
-- topic, counts their market deals, and serves what it found over HTTP and as metrics.
--
-- Parts, and the files of the program (paths from the root of the repository):
-- - Target, Target/Check, Target/Agent: target.go. `check` is `Target.check`, split at its early
--   returns: `check_miner`, `check_peer`, `check_protocols`, `check_index`, `check_head` and
--   `announce_head` follow one another as the source does. Target/Meaning is an independent account
--   of the statuses in terms of the network's answers.
-- - FilClient, FilClient/HeadPattern, FilClient/Snapshot: fil_client.go. The calls of the FileCoin
--   API, the pattern of a head protocol as a matcher of its own, the head of a publisher, and the
--   deals of the snapshot, from what the calls of the JSON decoder return. FilClient/Tools has the
--   pages of filecoin.tools, whose results share a loop variable: `leads` says how far the loop is
--   ahead of the receiver.
-- - Announce, IndexerClient, BoostClient: announce.go, indexer_client.go, boost_client.go.
-- - Deal, DealCounts, DealStats, Refresh: the deals of fil_client.go, and fil_deal_stats.go. `scan`
--   is the loop of `refresh` over what it receives, `commit` is what it does at the end of the
--   deals, and `run_rounds` is the loop of `start`. DealStats/Meaning has exact accounts of a live
--   and of a recent deal.
-- - HeyFil, Store: the shared state of heyfil.go, and store.go over a map from paths to contents.
-- - Startup: main.go, metrics_server.go, `startApiServer` of api_server.go, and `newHeyFil`, `Start`
--   and `Shutdown` of heyfil.go. `main` goes up to the wait for a signal.
-- - Service: the goroutines that heyfil.go starts. `Step` is what one of them does under a lock or
--   with a channel, or its return after the context is cancelled, and `Reaches` is any number of
--   such steps. Service/Invariant is what every state keeps, Service/Tracking and Service/Drain
--   follow the participants, Service/Updates compares the service with an abstract map, and
--   Service/Persistence and Service/Restart are about the files behind the targets.
-- - ApiServer: api_server.go. A handler is a function of the shared maps and the request, and `serve`
--   is the choice of the router, which redirects a path that is not clean.
-- - Metrics: metrics.go. Metrics/Instruments is `start`, Metrics/Snapshot the snapshot of the
--   targets, Metrics/Label the labels of the statuses, and Metrics/Report what is observed.
-- - Options: options.go.
-- - Base: numbers, texts, maps, sorting and paths as Go's standard library has them.
-- - Tests: the code on concrete inputs, in the world of Tests/World.
--
-- How they interact: `refresh` leaves the counts in the state that `check` reads through
-- `get_deal_counts`, and the recent pieces that the API serves; a checked target is stored and
-- listed, and a snapshot of the targets is what the metrics report. A call of the network is written
-- to the log of Trace, in order.
--
-- Parameters: what the libraries do is the record `Platform` (peer IDs, multiaddresses, CIDs, CBOR,
-- responses of JSON-RPC), the answers of the network are `Net`, files and JSON are `Storage`, and what
-- the library of the metrics answers is `Meter`.
--
-- Bounds: int64 arithmetic wraps (`add64`, `sub64`), and statements on counts ask for fewer than
-- 2^63 deals. A `Status` is an integer. `read_pages` takes fuel, and one more than the number of
-- pages that are not empty is enough. Every other loop runs over a list, and a closed channel is the
-- end of a list.
--
-- Not modelled: the serving of connections by the two servers, the exporter of the metrics, and
-- decoding by a schema, which are the libraries'. A refresh of the deal statistics is one step of the
-- service, and the order of its loop is in Refresh. A metric that is read before `start` is left out.
-- What a source of deals hands over is an argument of `refresh`. Logging is left out everywhere.
-- Locks are left out: a function of the model is what runs under one lock. A write that fails after
-- the file was opened, which leaves a part of the content, is left out.
pub mod Base
pub mod Platform
pub mod Trace
pub mod FilClient
pub mod Options
pub mod DealCounts
pub mod IndexerClient
pub mod Announce
pub mod BoostClient
pub mod Target
pub mod Deal
pub mod DealStats
pub mod Metrics
pub mod ApiServer
pub mod HeyFil
pub mod Store
pub mod Refresh
pub mod Service
pub mod Startup
pub mod Tests
