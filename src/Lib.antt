-- ===== src/Lib.antt =====
-- A model of the Kademlia queries, the choice of gossip recipients, the content stores, the validation
-- of history content and the content payloads of Trin, a client of the Ethereum Portal Network.
--
-- A node of the network looks for the nodes nearest to a key, or for a content, by asking the
-- nearest peers that it knows and taking in the peers that they name. portalnet/src/find has the
-- state machines for this: FindNodeQuery (iterators/findnodes.rs) and FindContentQuery
-- (iterators/findcontent.rs), both with the types of iterators/query.rs, keep their peers by
-- distance to the target; the overlay service calls `on_success` and `on_failure` on them as answers
-- come in. QueryPool (query_pool.rs) polls the running queries in turn and reports which peer to
-- ask next, which query has finished and which has timed out. QueryInfo (query_info.rs) makes the
-- request that is sent to a peer. Contents that are too long for one message travel by uTP, and
-- utils/portal_wire.rs packs and unpacks them there. A new content is passed on to nodes that
-- gossip.rs chooses, and kept by a content store: MemoryContentStore, or for the history network
-- HistoryStorage (trin-history/src/storage.rs), which prunes what is farthest from the node when its
-- capacity is reached. Before that ChainHistoryValidator (trin-history/src/validation.rs) checks it
-- against the header of its block, which HeaderOracle (trin-validation/src/oracle.rs) finds, and a
-- header against the roots of the epochs before the merge, MasterAccumulator (accumulator.rs). The
-- overlay service answers the messages of other nodes: which nodes it knows, a content that it has,
-- and which of the contents that they offer it wants; those come in one payload by uTP.
--
-- Files:
--   Prelude            names of the libraries, Boolean tests, lists, machine integers
--   BTreeMap, HashMap  the maps of Rust's standard library, as far as the program uses them: an
--                      association list in ascending order, and one in any order
--   Find/KeySpace      the crate discv5 as the queries see it, a parameter: `Key`, its preimage, and
--                      the distance, of which the proofs use that it is symmetric
--   Find/Query         iterators/query.rs; Query/States is the life of a peer as a step relation
--   Find/ClosestPeers  what findnodes.rs and findcontent.rs have word for word in common: `incorporate`
--                      is the loop of `on_success`, `scan` that of `poll`, `visit` its body
--   Find/FindNodes     findnodes.rs, one function for each method, under its name
--   Find/FindContent   findcontent.rs likewise; the results are in FindContent/Results
--   Find/QueryPool     query_pool.rs, over any implementation of the trait `Query`; its interface
--                      `QueryLaws` is in QueryPool/Valid, and QueryPool/Queries implements it twice
--   Find/QueryInfo     query_info.rs
--   Distance           `XorMetric` of ethportal-api/src/types/distance.rs, on lists of bytes
--   Gossip             the choice of the recipients in portalnet/src/gossip.rs; `sort_by` is the
--                      stable sort of the standard library; the random choice of rand is a parameter;
--                      Gossip/Propagate groups the contents into one offer for each recipient
--   Storage            MemoryContentStore of trin-storage/src/lib.rs, keyed by the bytes of content ids
--   Storage/Table      the statements of trin-storage/src/sql.rs and utils.rs, on a list of rows
--   Storage/History    HistoryStorage; Rounds has its invariant and one turn of the loop of
--                      `prune_db`, Prune the loop, Admits `store` and `new`
--   Validation         the data of headers, proofs and content keys (ethportal-api/src/types)
--   Validation/Hex     hex_encode and hex_decode of ethportal-api/src/utils/bytes.rs
--   Validation/Accumulator
--                      accumulator.rs; `Crates` has the functions of other libraries, the Merkle tree
--                      copied from Lighthouse among them, and Accumulator/Merkle their laws
--   Validation/Oracle  oracle.rs
--   Validation/Content validation.rs
--   Overlay            messages in portalnet/src/overlay_service.rs, over any content store
--   Overlay/Offer      OFFER and ACCEPT: handle_offer, process_accept, provide_requested_content
--   Overlay/Payload    process_accept_utp_payload; Payload/Transfer follows an offer through both nodes
--   Overlay/Responses  handle_find_nodes, handle_find_content and the bound on their size
--   QueryTrace         ethportal-api/src/types/query_trace.rs, the record of a recursive query
--   Wire               portalnet/src/utils/portal_wire.rs: contents in a uTP payload, with the crate
--                      leb128 a parameter; Wire/Codec has the encoder against the decoder, Wire/Runs
--                      the loop of the decoder without fuel
--   Tests              concrete data, and the theorems at it
--
-- A method with `&mut self` takes the record and returns the new one. A failed `assert!` or `expect`
-- is `none`. The model is that of a release build on a machine of 64 bits: `debug_assert!` does
-- nothing, and `usize` wraps around modulo 2 ^ 64 (`usize_add`, `usize_sub`). Theorems that need it
-- assume that fewer peers than 2 ^ 64 are known (`Fits`). Instants and durations are numbers of one
-- unit without an upper bound, and the difference of instants stops at 0, as it does in Rust; the
-- clock is the argument `now`. `u16::from_be` is that of a little-endian machine. The loop of
-- `findnode_log2distance` runs on the fuel 128, which is enough for the 127 distances that the
-- function allows at most. The loop of `decode_content_payload` runs on the length of the payload,
-- of which each turn takes a byte at least, and that of `prune_db` on the number of rows and one, as
-- each turn but the last deletes a row. The loop that drops ENRs from a response runs on their
-- number, after which none is left.
--
-- A function that fails with an error or panics gives an `Outcome`. Hashes and integers of 256 bits
-- are numbers. The tasks that the overlay service spawns for the contents of a payload run in the
-- order of the contents. A request to the network is a function from the content key to the reply.
-- The `f64` in which the database sums sizes is taken as exact, which it is below 2 ^ 53, and a row
-- holds the bytes whose hexadecimal text the database holds.
--
-- Not modelled: `Query::target`, the accessors and the iterators, the callbacks, temporary ENRs and
-- traces that QueryInfo carries; the overlay service but for what is named above, the traced variant
-- of gossip, most messages of the wire protocol; a database that fails, metrics and logs; the
-- encodings in SSZ, RLP and JSON and the roots of tries, which other libraries compute; the beacon
-- network, the bridge and the JSON-RPC interface, planned or input and output only; light-client, a
-- fork of another project, Helios; the state network, whose validation is a stub.
pub mod Prelude
pub mod BTreeMap
pub mod HashMap
pub mod Find
pub mod Distance
pub mod Gossip
pub mod Wire
pub mod Storage
pub mod Validation
pub mod Overlay
pub mod QueryTrace
pub mod Tests
