-- ===== src/Lib.antt =====
-- gossip-mesh: a verification library for the gossip core of the mesh.
--
-- The program disseminates small messages, each a topic, a sequence number and a payload, among
-- the nodes of a cluster. The overlay (overlay/overlay.go) sorts a node's peers into eager and lazy
-- ones by round trip time. The engine (engine/engine.go) sends a new message to the eager peers at
-- once, as a datagram or on a persistent stream (engine/eager_stream.go), and collects it for the lazy
-- peers in buffers that are flushed as compressed batches (engine/batch.go). A duplicate filter
-- (engine/seen.go) lets each message of a topic pass once; an ordered applier (engine/ordered.go)
-- hands the messages of a topic to the consumer in order, buffers what comes early, and after a
-- timeout pulls a missing message from a peer's cache (engine/repair.go) or skips the gap.
-- The transport (transport/transport.go) keeps one QUIC connection for each peer's address and hands
-- what arrives to handlers by its first byte. The membership (membership/) follows the cluster; its
-- changes make the mesh (mesh/mesh.go) sort the peers of the overlay again. Where nodes cannot reach each
-- other, an extension (s3nat/s3nat.go) finds them in an object store (bootstrap, objstore) and tries a
-- join, a hole punch (holepunch) and a relay (relay).
--
-- The files:
--   Base and its children: names of the library passed on, tests and lists over the native numbers,
--     Go maps as association lists (Table), big-endian numbers (Bytes), signed settings (Int),
--     Go's order on strings (Strings).
--   Seen: engine/seen.go. Marks holds the facts of one call at a time, Race the callers that
--     interleave at the atomic operations of ShouldProcess, Alone the one that does not.
--   Wire: Entry has GossipEntry of engine/engine.go and the decoders' result; Eager the eager message;
--     Batch the plain bytes of a lazy batch; Frame/Batches its compression and length header;
--     Frame/Streams the frames of an eager stream and the loop that reads them; Frame/Writer the state
--     of eagerStreamWriter.
--   Ordered: engine/ordered.go. A topic's entries in the applier's arrays are one Slot. Drain is about
--     drainPending, Receive about one message, Complete about many, Timer about gapTimer, Slots about
--     the invariant of all operations.
--   Repair: engine/repair.go. Eviction is about the cache, Serving about a pull from end to end.
--   LazyBuffer: the buffer of one lazy peer in engine/batch.go.
--   Overlay: overlay/overlay.go. Clusters, Counting and Selection are about the selection's loops,
--     Reclassify and Budget about its result.
--   ObjectStore: objstore/objstore.go and objstore/memstore.go, the store in memory; Conditional is
--     about its puts.
--   Bootstrap: bootstrap/registry.go over any object store. Discovery is about DiscoverPeers, Memory
--     about the registry in a store in memory. ClusterTls: bootstrap/tls.go, with the nodes' calls
--     interleaved (Points, Agreement), the CA that is stored in part (Orphan), and the configurations
--     of the nodes (Trust).
--   Engine: engine/engine.go. State, Forward and Handlers are the code, Wiring the handlers as the
--     transport calls them, Run the running engine as a sequence of events; Dedup, Fanout, Flush
--     and Invariant are about it.
--   Cluster: several engines, and what is on the wire between them. Effects and Wire are about the engines'
--     handlers and their messages, Covered and Events about every state, Convergence about an entry
--     that spreads.
--   Transport: transport/transport.go. Pool is about one caller at a time, Closing about
--     Shutdown, Serving about the accept loops through any calls, Dial about callers of
--     getOrDial that interleave (Unique, Evicted); Dispatch is the handlers and the type bytes of
--     transport/dispatch.go.
--   Membership: membership/. View is about the table after events, Live about LivePeers, Meta about UpdateMeta with
--     interleaved callers, Announce about what a node tells of itself.
--   Mesh: mesh/mesh.go. Follows is about the overlay, Lifecycle about Join and Leave.
--   Holepunch: holepunch/. Signals and Cleanup are about signal.go, Attempt about punch.go; Pair has two
--     attempts against each other.
--   Discovery: s3nat/s3nat.go. Escalation, Relays and Registered are about one discovery. Lifecycle has
--     Start, Stop, the hook for nodes that leave (Cleanup, Stopping) and the poll loop (Polling).
--   Relay: relay/. Header is about a request from the client to the relay.
--   Natutil: natutil/. Reflection is about a reflection from end to end.
--   Files named Examples hold concrete inputs for the theorems of their component.
--
-- How the code is written down: a method is a function from the state before to the state after and
-- what it hands out. Sequence numbers, counts and lengths wrap at the width that the code converts
-- them to; statistics counters do not wrap. Maps are association lists, whose order nothing depends
-- on but the choice of the evicted cache key, which is a parameter. The arrays over all topics are
-- functions. What the applier delivers and what the engine sends are lists in order; a goroutine that
-- sleeps in gapTimer is an entry of a list. Parameters are the compressor, the writers, whether the
-- transport takes a message, the peers' answers to a repair pull, the sorts, the format of a
-- version as an ETag, and the JSON codec.
--
-- Bounds and fuel: the loop of drainPending has one unit of fuel for each buffered item, since each
-- round takes one (drain_loop_done in Ordered/Drain). The loop over an eager stream has one more
-- than there are bytes, since each round reads four at least (receive_loop_enough in Wire/Frame/Streams).
--
-- getOrCreateCA calls itself: one unit of fuel is one call. With a whole CA in the store, or none, one is
-- enough (get_or_create_ca_shared).
--
-- The channel of local entries holds 256, as in the code, and an Enqueue that would block leaves the
-- state as it is.
--
-- Not modelled: QUIC, memberlist, the Vivaldi client, JSON and zstd, which are not part of the
-- repository and are parameters; what tlsutil generates, which is a parameter; sockets,
-- timeouts, logging and printed statistics; the copying of a relay; the extension's poll
-- interval; the configuration of the mesh and of QUIC, with its defaults. Handlers of one engine run
-- one at a time, but for the interleavings of ShouldProcess, getOrDial, UpdateMeta, getOrCreateCA
-- and AttemptHolePunch.
pub mod Base
pub mod Bootstrap
pub mod Cluster
pub mod Discovery
pub mod Engine
pub mod Holepunch
pub mod LazyBuffer
pub mod Membership
pub mod Mesh
pub mod Natutil
pub mod ObjectStore
pub mod Ordered
pub mod Overlay
pub mod Relay
pub mod Repair
pub mod Seen
pub mod Transport
pub mod Wire
