-- ===== src/Wire.antt =====
-- What the engine writes on the wire: gossip entries and the formats of engine/engine.go,
-- engine/batch.go, engine/eager_stream.go and engine/repair.go. A byte is a number below 256, and a
-- slice from an offset on is the list of the bytes that are left.
pub mod Entry
pub mod Eager
pub mod Batch
pub mod Frame
mod Examples
