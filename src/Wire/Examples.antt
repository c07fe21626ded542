-- ===== src/Wire/Examples.antt =====
-- A small batch on a stream, with compressors that can be written down.
use gossip_mesh.Base.{
  none, true, false, ◌⊎◌, inl, ℕ, ◌+◌, ◌<◌, ◌≤◌, ◌≡◌, refl, ap, sym, ◌∙◌, arith, Option, some, List,
  [], ◌∷◌, ◌++◌, map, length, drop, replicate, length-replicate, length-append, drop-append,
  u16_mod, u32_mod,
}
use gossip_mesh.Base.Bytes.{put_be}
use gossip_mesh.Seen.{TopicSeq}
use gossip_mesh.Wire.Entry.{GossipEntry, IsEntry, ok}
use gossip_mesh.Wire.Eager.{decode_eager_message}
use gossip_mesh.Wire.Batch.{LazyBatch, encode_entries, encode_marks, encode_plain}
use gossip_mesh.Wire.Batch.RoundTrip.{IsBatch}
use gossip_mesh.Wire.Frame.Batches.{
  max_frame, encode_lazy_batch, write_lazy_batch, read_lazy_batch, framed, read_framed,
}
use gossip_mesh.Wire.Frame.Writer.{
  stream_type_eager_stream, EagerStreamWriter, Attempt, send, frames_of, Carries, send-Carries,
}
use gossip_mesh.Wire.Frame.Streams.{
  receive_eager_stream, receive_loop, StreamEnd, receive_loop_enough, frames, receive-frames,
}

abbrev one_entry : GossipEntry
one_entry = record { topic = 3; seq = 258; payload = 5 ∷ 6 ∷ [] }

abbrev one_mark : TopicSeq
one_mark = record { topic = 4; seq = 9 }

abbrev one_batch : LazyBatch
one_batch = record { entries = one_entry ∷ []; sender_high_water_marks = one_mark ∷ [] }

one_entry-IsEntry : IsEntry one_entry
one_entry-IsEntry = record {
  topic_fits = omega arith;
  seq_fits = omega arith;
  payload_fits = omega arith;
  payload_bytes = (omega arith, (omega arith, tt));
}

one_batch-IsBatch : IsBatch one_batch
one_batch-IsBatch = record {
  entries_fit = omega arith;
  marks_fit = omega arith;
  entries_valid = (one_entry-IsEntry, tt);
  marks_valid = (record { topic_fits = omega arith; seq_fits = omega arith }, tt);
}

abbrev stored : List ℕ → List ℕ
stored bytes = bytes

abbrev restored : List ℕ → Option (List ℕ)
restored bytes = some bytes

one_batch-length : length (encode_lazy_batch stored one_batch) ≤ max_frame
unfolding encode_lazy_batch encode_plain encode_entries encode_marks put_be
one_batch-length = omega arith

abbrev large_batch : LazyBatch
large_batch = record { entries = replicate u16_mod one_entry; sender_high_water_marks = [] }

read_framed_example : read_lazy_batch restored (framed stored one_batch ++ 1 ∷ []) ≡ ok one_batch
read_framed_example =
    read_framed stored restored (λ bytes. refl) one_batch (1 ∷ []) one_batch-IsBatch
      one_batch-length

-- A compressor that puts `n` bytes in front.
abbrev padded : ℕ → List ℕ → List ℕ
padded n bytes = replicate n 0 ++ bytes

abbrev unpadded : ℕ → List ℕ → Option (List ℕ)
unpadded n bytes = some (drop n bytes)

unpadded-padded : (n : ℕ) (bytes : List ℕ) → unpadded n (padded n bytes) ≡ some bytes
unpadded-padded n bytes = ap some (
    ap (λ k. drop k (padded n bytes)) (sym (length-replicate n 0))
    ∙ drop-append (replicate n 0) bytes)

padded-length :
    (n : ℕ)
    → length (encode_lazy_batch (padded n) one_batch)
      ≡ n + length (encode_lazy_batch stored one_batch)
unfolding encode_lazy_batch
padded-length n =
    length-append (replicate n 0) (encode_plain one_batch)
    ∙ ap (λ k. k + length (encode_plain one_batch)) (length-replicate n 0)

padded_over : (n : ℕ) → max_frame < n → max_frame < length (encode_lazy_batch (padded n) one_batch)
padded_over n h = omega (arith, padded-length n)

padded_fits :
    (n : ℕ) → n ≤ max_frame + 1 → length (encode_lazy_batch (padded n) one_batch) < u32_mod
padded_fits n h = omega (arith, padded-length n, one_batch-length)

-- A writer that keeps all bytes in memory.
abbrev append_bytes : List ℕ → List ℕ → Option (List ℕ)
append_bytes w bytes = some (w ++ bytes)

append_bytes-written : (w w' bytes : List ℕ) → append_bytes w bytes ≡ some w' → w' ≡ w ++ bytes
append_bytes-written w w' bytes h = cc

two_writes : write_lazy_batch stored append_bytes [] one_batch ≡ some (framed stored one_batch)
unfolding write_lazy_batch
two_writes = refl

receive-frames_example :
    map decode_eager_message (receive_eager_stream (frames (one_entry ∷ []) ++ 0 ∷ []))
    ≡ map ok (one_entry ∷ []) ++ map decode_eager_message (receive_eager_stream (0 ∷ []))
receive-frames_example =
    receive-frames (one_entry ∷ []) (0 ∷ []) ((one_entry-IsEntry, omega arith), tt)

abbrev broken_write : Attempt
broken_write = record { opened = true; typed = true; headed = true; carried = false }

abbrev used_writer : EagerStreamWriter
used_writer = record { stream = some (stream_type_eager_stream ∷ frames_of ((2 ∷ []) ∷ [])) }

send-Carries_example :
    let (w', sent) = send used_writer broken_write (2 ∷ 3 ∷ []) in
    ((sent ≡ true) × Carries ((2 ∷ []) ∷ (2 ∷ 3 ∷ []) ∷ []) w')
    ⊎ ((sent ≡ false) × (w'.stream ≡ none))
send-Carries_example = send-Carries used_writer broken_write (2 ∷ 3 ∷ []) ((2 ∷ []) ∷ []) (inl refl)

receive_loop_enough_example :
    (x : StreamEnd) × (receive_loop 9 (0 ∷ 0 ∷ 0 ∷ 1 ∷ 7 ∷ [])
      ≡ (receive_eager_stream (0 ∷ 0 ∷ 0 ∷ 1 ∷ 7 ∷ []), some x))
receive_loop_enough_example = receive_loop_enough 9 (0 ∷ 0 ∷ 0 ∷ 1 ∷ 7 ∷ []) (omega arith)
