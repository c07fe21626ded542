-- ===== src/Wire/Batch/RoundTrip.antt =====
-- DecodeLazyBatch reads back what EncodeLazyBatch wrote, within the widths of the counts.
use mathlib.Core.List.{append_assoc}
use native.Mathlib.Nat.{mod-eq_of_lt}
use gossip_mesh.Base.{
  ℕ, ◌+◌, ◌%◌, ◌<◌, ◌≡◌, refl, arith, List, [], ◌∷◌, ◌++◌, length, length-append, take-append,
  drop-append, le→ltb, All, u16_mod,
}
use gossip_mesh.Base.Bytes.{put_be, length-put_be, get_be-put_be, drop-put_be}
use gossip_mesh.Seen.{TopicSeq}
use gossip_mesh.Wire.Entry.{GossipEntry, IsEntry, IsMark, ok}
use gossip_mesh.Wire.Batch.{
  LazyBatch, encode_entries, encode_marks, encode_plain, decode_entry, decode_entries, decode_marks,
  decode_mark_section, decode_plain,
}

decode_entry-encode :
    (i : ℕ) (e : GossipEntry) (rest : List ℕ)
    → IsEntry e
    → decode_entry i (
        put_be 2 e.topic
        ++ (put_be 8 e.seq ++ (put_be 4 (length e.payload) ++ (e.payload ++ rest))))
      ≡ ok (e, rest)
unfolding decode_entry
decode_entry-encode i e rest v =
    let r14 = e.payload ++ rest in
    let r10 = put_be 4 (length e.payload) ++ r14 in
    let r2 = put_be 8 e.seq ++ r10 in
    rw (
      drop-put_be 2 e.topic r2,
      drop-put_be 8 e.seq r10,
      drop-put_be 4 (length e.payload) r14,
      get_be-put_be 2 e.topic r2 v.topic_fits,
      get_be-put_be 8 e.seq r10 v.seq_fits,
      get_be-put_be 4 (length e.payload) r14 v.payload_fits,
      take-append e.payload rest,
      drop-append e.payload rest,
      le→ltb (length (put_be 2 e.topic ++ r2)) 14 (
          omega (
            arith,
            length-append (put_be 2 e.topic) r2,
            length-append (put_be 8 e.seq) r10,
            length-append (put_be 4 (length e.payload)) r14,
            length-put_be 2 e.topic,
            length-put_be 8 e.seq,
            length-put_be 4 (length e.payload),
          )),
      le→ltb (length r14) (length e.payload) (omega (arith, length-append e.payload rest)),
    )

decode_entries-encode :
    (i : ℕ) (es : List GossipEntry) (rest : List ℕ)
    → All IsEntry es
    → decode_entries (length es) i (encode_entries es ++ rest) ≡ ok (es, rest)
unfolding decode_entries encode_entries
decode_entries-encode i [] rest v = refl
decode_entries-encode i (e ∷ es) rest v = rw (mod-eq_of_lt (v.0).payload_fits) (
    simp append_assoc (
      rw (decode_entry-encode i e (encode_entries es ++ rest) v.0)
        (rw (decode_entries-encode (i + 1) es rest v.1))))

decode_marks-encode :
    (i : ℕ) (ms : List TopicSeq)
    → All IsMark ms
    → decode_marks (length ms) i (encode_marks ms) ≡ ok ms
unfolding decode_marks encode_marks
decode_marks-encode i [] v = refl
decode_marks-encode i (m ∷ ms) v =
    let r2 = put_be 8 m.seq ++ encode_marks ms in
    rw (
      drop-put_be 2 m.topic r2,
      drop-put_be 8 m.seq (encode_marks ms),
      get_be-put_be 2 m.topic r2 (v.0).topic_fits,
      get_be-put_be 8 m.seq (encode_marks ms) (v.0).seq_fits,
      decode_marks-encode (i + 1) ms v.1,
      le→ltb (length (put_be 2 m.topic ++ r2)) 10 (
          omega (
            arith,
            length-append (put_be 2 m.topic) r2,
            length-append (put_be 8 m.seq) (encode_marks ms),
            length-put_be 2 m.topic,
            length-put_be 8 m.seq,
          )),
    )

-- The batches that the format can carry: at most 65535 entries and as many marks.
pub record IsBatch (b : LazyBatch) : Type 0 where
  pub entries_fit : length b.entries < u16_mod
  pub marks_fit : length b.sender_high_water_marks < u16_mod
  pub entries_valid : All IsEntry b.entries
  pub marks_valid : All IsMark b.sender_high_water_marks

decode_mark_section-encode :
    (ms : List TopicSeq)
    → length ms < u16_mod
    → All IsMark ms
    → decode_mark_section (put_be 2 (length ms % u16_mod) ++ encode_marks ms) ≡ ok ms
unfolding decode_mark_section
decode_mark_section-encode ms h v =
    rw
      (
        mod-eq_of_lt h,
        le→ltb (length (put_be 2 (length ms) ++ encode_marks ms)) 2 (
            omega (
              arith,
              length-append (put_be 2 (length ms)) (encode_marks ms),
              length-put_be 2 (length ms),
            )),
        get_be-put_be 2 (length ms) (encode_marks ms) h,
        drop-put_be 2 (length ms) (encode_marks ms),
      )
      (decode_marks-encode 0 ms v)

-- Decoding the encoding of a batch gives the batch, if its counts and fields fit their widths.
pub decode-encode_plain : (b : LazyBatch) → IsBatch b → decode_plain (encode_plain b) ≡ ok b
unfolding decode_plain encode_plain
decode-encode_plain b v =
    let marks =
      put_be 2 (length b.sender_high_water_marks % u16_mod)
      ++ encode_marks b.sender_high_water_marks in
    let body = encode_entries b.entries ++ marks in
    rw (
      mod-eq_of_lt v.entries_fit,
      le→ltb (length (put_be 2 (length b.entries) ++ body)) 2 (
          omega (
            arith,
            length-append (put_be 2 (length b.entries)) body,
            length-put_be 2 (length b.entries),
          )),
      get_be-put_be 2 (length b.entries) body v.entries_fit,
      drop-put_be 2 (length b.entries) body,
      decode_entries-encode 0 b.entries marks v.entries_valid,
      decode_mark_section-encode b.sender_high_water_marks v.marks_fit v.marks_valid,
    )
