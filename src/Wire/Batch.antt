-- ===== src/Wire/Batch.antt =====
-- EncodeLazyBatch and DecodeLazyBatch of engine/batch.go, between the compressor's two calls. Counts
-- are cut to two bytes and payload lengths to four, as the conversions in the source do.
pub mod RoundTrip
pub mod Counts
use gossip_mesh.Base.{
  ℕ, zero, suc, ◌+◌, ◌%◌, ◌<◌, ◌≡◌, List, [], ◌∷◌, ◌++◌, length, take, drop, ltb, if◌then◌else◌,
  u16_mod, u32_mod,
}
use gossip_mesh.Base.Bytes.{put_be, get_be}
use gossip_mesh.Seen.{TopicSeq}
use gossip_mesh.Wire.Entry.{
  GossipEntry, Result, ok, err, ◌>>=◌, batch_too_short, truncated_hwm_header, truncated_entry,
  truncated_payload, truncated_hwm,
}

pub record LazyBatch : Type 0 where
  pub entries : List GossipEntry
  pub sender_high_water_marks : List TopicSeq

unfoldable pub encode_entries : List GossipEntry → List ℕ
encode_entries [] = []
encode_entries (e ∷ es) =
    put_be 2 e.topic
    ++ (put_be 8 e.seq
        ++ (put_be 4 (length e.payload % u32_mod) ++ (e.payload ++ encode_entries es)))

unfoldable pub encode_marks : List TopicSeq → List ℕ
encode_marks [] = []
encode_marks (m ∷ ms) = put_be 2 m.topic ++ (put_be 8 m.seq ++ encode_marks ms)

-- The buffer that EncodeLazyBatch hands to the compressor.
unfoldable pub encode_plain : LazyBatch → List ℕ
encode_plain b =
    put_be 2 (length b.entries % u16_mod)
    ++ (encode_entries b.entries
        ++ (put_be 2 (length b.sender_high_water_marks % u16_mod)
            ++ encode_marks b.sender_high_water_marks))

-- One round of the entry loop: the entry numbered `i`, and the bytes behind it.
pub decode_entry : ℕ → List ℕ → Result (GossipEntry × List ℕ)
decode_entry i d =
    let d2 : List ℕ = drop 2 d in
    let d10 : List ℕ = drop 8 d2 in
    let d14 : List ℕ = drop 4 d10 in
    let plen : ℕ = get_be 4 d10 in
    if ltb (length d) 14
    then err (truncated_entry i)
    else if ltb (length d14) plen
    then err (truncated_payload i)
    else ok
        (record { topic = get_be 2 d; seq = get_be 8 d2; payload = take plen d14 }, drop plen d14)

pub decode_entries : ℕ → ℕ → List ℕ → Result (List GossipEntry × List ℕ)
decode_entries zero i d = ok ([], d)
decode_entries (suc n) i d = do
  (e, rest) ← decode_entry i d
  (es, left) ← decode_entries n (i + 1) rest
  ok (e ∷ es, left)

pub decode_marks : ℕ → ℕ → List ℕ → Result (List TopicSeq)
decode_marks zero i d = ok []
decode_marks (suc n) i d =
    let more : Result (List TopicSeq) = decode_marks n (i + 1) (drop 8 (drop 2 d)) in
    if ltb (length d) 10
    then err (truncated_hwm i)
    else more >>= λ ms. ok (record { topic = get_be 2 d; seq = get_be 8 (drop 2 d) } ∷ ms)

-- The count of the marks and the marks.
pub decode_mark_section : List ℕ → Result (List TopicSeq)
decode_mark_section d =
    if ltb (length d) 2 then err truncated_hwm_header else decode_marks (get_be 2 d) 0 (drop 2 d)

-- The entries and the marks, from the entry count on.
pub decode_sections : List ℕ → Result LazyBatch
decode_sections bytes = do
  (es, d) ← decode_entries (get_be 2 bytes) 0 (drop 2 bytes)
  ms ← decode_mark_section d
  ok (record { entries = es; sender_high_water_marks = ms })

-- What DecodeLazyBatch does with the decompressed bytes.
unfoldable pub decode_plain : List ℕ → Result LazyBatch
unfolding decode_sections
decode_plain bytes = if ltb (length bytes) 2 then err batch_too_short else decode_sections bytes
