-- ===== src/Wire/Batch/Counts.antt =====
-- The two-byte entry count of a lazy batch (engine/batch.go).
use gossip_mesh.Base.{
  ℕ, zero, suc, ◌+◌, ◌%◌, ◌≤◌, ◌≡◌, ◌≢◌, refl, ◌∙◌, arith, inl, inr, List, ◌++◌, length, drop, ltb,
  Bool-cases, u16_mod,
}
use gossip_mesh.Base.Bytes.{put_be, get_be, get_be-put_be}
use gossip_mesh.Wire.Entry.{GossipEntry, Result, ok, err, ◌>>=◌}
use gossip_mesh.Wire.Batch.{
  LazyBatch, encode_entries, encode_marks, encode_plain, decode_entry, decode_entries,
  decode_mark_section, decode_sections, decode_plain,
}

-- Where the second of two steps ends in `ok`, so did the first.
>>=-eq-ok {ℓ κ} :
    {First : Type ℓ} {Last : Type κ} (r : Result First) (next : First → Result Last) {last : Last}
    → r >>= next ≡ ok last
    → (first : First) × ((r ≡ ok first) × (next first ≡ ok last))
>>=-eq-ok (err why) next e = cc
>>=-eq-ok (ok first) next e = (first, (refl, e))

decode_entries-length :
    (n i : ℕ) (d : List ℕ) (es : List GossipEntry) (left : List ℕ)
    → decode_entries n i d ≡ ok (es, left)
    → length es ≡ n
unfolding decode_entries
decode_entries-length zero i d es left h = ground arith
decode_entries-length (suc n) i d es left h =
    let ((e, rest), (p, q)) = >>=-eq-ok (decode_entry i d) _ h in
    let ((more, end), (p', q')) = >>=-eq-ok (decode_entries n (i + 1) rest) _ q in
    ground (arith, decode_entries-length n (i + 1) rest more end p')

decode_sections-length :
    (bytes : List ℕ) (b : LazyBatch)
    → decode_sections bytes ≡ ok b
    → length b.entries ≡ get_be 2 bytes
unfolding decode_sections
decode_sections-length bytes b h =
    let ((es, d), (p, q)) = >>=-eq-ok (decode_entries (get_be 2 bytes) 0 (drop 2 bytes)) _ h in
    let (ms, (p', q')) = >>=-eq-ok (decode_mark_section d) _ q in
    ground (arith, decode_entries-length (get_be 2 bytes) 0 (drop 2 bytes) es d p)

decode_plain-length :
    (bytes : List ℕ) (b : LazyBatch) → decode_plain bytes ≡ ok b → length b.entries ≡ get_be 2 bytes
unfolding decode_plain
decode_plain-length bytes b h = elim (Bool-cases (ltb (length bytes) 2)) [
  | inl e ↦ cc (rw (e, decode_plain) at h)
  | inr e ↦ decode_sections-length bytes b (rw (e, decode_plain) at h)
]

-- Whatever a written batch decodes to has the number of its entries cut to sixteen bits.
pub decode-encode_count :
    (b b' : LazyBatch)
    → decode_plain (encode_plain b) ≡ ok b'
    → length b'.entries ≡ length b.entries % u16_mod
unfolding encode_plain
decode-encode_count b b' h =
    let rest =
      encode_entries b.entries
      ++ (put_be 2 (length b.sender_high_water_marks % u16_mod)
          ++ encode_marks b.sender_high_water_marks) in
    decode_plain-length (put_be 2 (length b.entries % u16_mod) ++ rest) b' h
    ∙ get_be-put_be 2 (length b.entries % u16_mod) rest (omega arith)

-- Decoding the encoding of a batch of 65536 entries or more does not give the batch.
pub decode-encode_too_many :
    (b : LazyBatch) → u16_mod ≤ length b.entries → decode_plain (encode_plain b) ≢ ok b
decode-encode_too_many b big h = omega (arith, decode-encode_count b b h, big)
