-- ===== src/Wire/Frame.antt =====
-- Length-prefixed frames: WriteLazyBatch and ReadLazyBatch of engine/batch.go around the compressor,
-- which is a parameter, and the persistent eager streams of engine/eager_stream.go.
pub mod Batches
pub mod Streams
pub mod Writer
