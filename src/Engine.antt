-- ===== src/Engine.antt =====
-- engine/engine.go: the gossip engine. Its state is one record; a handler is a function from the state
-- before to the state after. What the transport is handed is kept in order in `sent`, and whether it
-- took it is a parameter, as is the choice of a map's first key. Counters do not wrap.
pub mod State
pub mod Forward
pub mod Handlers
pub mod Dedup
pub mod Fanout
pub mod Flush
pub mod Wiring
pub mod Run
pub mod Invariant
mod Examples
