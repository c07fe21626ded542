-- ===== src/Wire/Frame/Batches.antt =====
-- WriteLazyBatch, ReadLazyBatch and the calls of the compressor (engine/batch.go). The zstd encoder
-- and decoder are parameters; so is the writer, whose `write` gives none where Go returns an error.
use native.Mathlib.Nat.{mod-eq_of_lt}
use mathlib.Core.List.{append_assoc}
use gossip_mesh.Base.{
  ℕ, ◌*◌, ◌%◌, ◌<◌, ◌≤◌, ◌≡◌, refl, arith, Option, none, some, List, ◌++◌, length, length-append,
  take, drop, take-append, ltb, le→ltb, lt→ltb, if◌then◌else◌, u32_mod,
}
use gossip_mesh.Base.Bytes.{put_be, get_be, length-put_be, get_be-put_be, drop-put_be}
use gossip_mesh.Wire.Entry.{Result, ok, err, zstd_decompress, unexpected_eof, batch_too_large}
use gossip_mesh.Wire.Batch.{LazyBatch, encode_plain, decode_plain}
use gossip_mesh.Wire.Batch.RoundTrip.{IsBatch, decode-encode_plain}

-- The reader's sanity limit of 16 MB.
abbrev pub max_frame : ℕ
max_frame = 16 * 1024 * 1024

module _ (compress : List ℕ → List ℕ) where
  unfoldable pub encode_lazy_batch : LazyBatch → List ℕ
  encode_lazy_batch b = compress (encode_plain b)

  -- The two writes: the length header, and the compressed batch.
  unfoldable pub write_lazy_batch {ℓ} :
      {W : Type ℓ} → (W → List ℕ → Option W) → W → LazyBatch → Option W
  write_lazy_batch write w b =
      let compressed : List ℕ = encode_lazy_batch b in
      elim (write w (put_be 4 (length compressed % u32_mod))) [
        | none ↦ none
        | some w' ↦ write w' compressed
      ]

module _ (decompress : List ℕ → Option (List ℕ)) where
  pub decode_lazy_batch : List ℕ → Result LazyBatch
  decode_lazy_batch compressed = elim (decompress compressed) [
    | none ↦ err zstd_decompress
    | some bytes ↦ decode_plain bytes
  ]

  -- The reader is the list of the bytes that are still to come.
  pub read_lazy_batch : List ℕ → Result LazyBatch
  read_lazy_batch r =
      let size : ℕ = get_be 4 r in
      if ltb (length r) 4
      then err unexpected_eof
      else if ltb max_frame size
      then err batch_too_large
      else if ltb (length (drop 4 r)) size
      then err unexpected_eof
      else decode_lazy_batch (take size (drop 4 r))

-- What a completed write appends to the stream.
abbrev pub framed : (List ℕ → List ℕ) → LazyBatch → List ℕ
framed compress b =
    let c : List ℕ = encode_lazy_batch compress b in put_be 4 (length c % u32_mod) ++ c

both_writes {ℓ} :
    {W : Type ℓ} (write : W → List ℕ → Option W) (w : W) (o : Option W) {w' : W} (header c : List ℕ)
    → write w header ≡ o
    → elim o as (λ x. Option W) [ none ↦ none | some w1 ↦ write w1 c ] ≡ some w'
    → (w1 : W) × (write w header ≡ some w1) × (write w1 c ≡ some w')
both_writes write w none header c e h = cc
both_writes write w (some w1) header c e h = (w1, e, h)

module _ (compress : List ℕ → List ℕ) (decompress : List ℕ → Option (List ℕ))
    (inverse : (bytes : List ℕ) → decompress (compress bytes) ≡ some bytes) where
  decode_compressed :
      (bytes : List ℕ) → decode_lazy_batch decompress (compress bytes) ≡ decode_plain bytes
  unfolding decode_lazy_batch
  decode_compressed bytes = rw (inverse bytes, decode_lazy_batch)

  -- ReadLazyBatch reads back the batch that was framed, whatever follows on the stream, if the counts
  -- fit, the frame is within the limit and the decompressor inverts the compressor.
  pub read_framed :
      (b : LazyBatch) (rest : List ℕ)
      → IsBatch b
      → length (encode_lazy_batch compress b) ≤ max_frame
      → read_lazy_batch decompress (framed compress b ++ rest) ≡ ok b
  unfolding read_lazy_batch encode_lazy_batch
  read_framed b rest v small =
      let c = compress (encode_plain b) in
      let fits : length c < u32_mod = omega (arith, small) in
      rw
        (
          append_assoc (put_be 4 (length c % u32_mod)) c rest,
          mod-eq_of_lt fits,
          le→ltb (length (put_be 4 (length c) ++ (c ++ rest))) 4 (
              omega (
                arith,
                length-append (put_be 4 (length c)) (c ++ rest),
                length-put_be 4 (length c),
              )),
          get_be-put_be 4 (length c) (c ++ rest) fits,
          drop-put_be 4 (length c) (c ++ rest),
          le→ltb max_frame (length c) small,
          le→ltb (length (c ++ rest)) (length c) (omega (arith, length-append c rest)),
          take-append c rest,
          decode_compressed (encode_plain b),
        )
        (decode-encode_plain b v)

  -- ReadLazyBatch refuses the frame of a batch whose compressed bytes are more than 16 MB and whose
  -- length fits four bytes.
  pub read_framed_too_large :
      (b : LazyBatch) (rest : List ℕ)
      → max_frame < length (encode_lazy_batch compress b)
      → length (encode_lazy_batch compress b) < u32_mod
      → read_lazy_batch decompress (framed compress b ++ rest) ≡ err batch_too_large
  unfolding read_lazy_batch encode_lazy_batch
  read_framed_too_large b rest big fits =
      let c = compress (encode_plain b) in
      rw (
        append_assoc (put_be 4 (length c % u32_mod)) c rest,
        mod-eq_of_lt fits,
        le→ltb (length (put_be 4 (length c) ++ (c ++ rest))) 4 (
            omega
              (arith, length-append (put_be 4 (length c)) (c ++ rest), length-put_be 4 (length c))),
        get_be-put_be 4 (length c) (c ++ rest) fits,
        lt→ltb max_frame (length c) big,
      )

  module _ {ℓ} {W : Type ℓ} (write : W → List ℕ → Option W) (written : W → List ℕ)
      (appends : (w w' : W) (bs : List ℕ)
        → write w bs ≡ some w'
        → written w' ≡ written w ++ bs) where
    -- If the writer's writes append, a WriteLazyBatch that completes has appended the four-byte
    -- length and the compressed batch.
    pub written-write_lazy_batch :
        (w w' : W) (b : LazyBatch)
        → write_lazy_batch compress write w b ≡ some w'
        → written w' ≡ written w ++ framed compress b
    unfolding write_lazy_batch encode_lazy_batch
    written-write_lazy_batch w w' b h =
        let c = compress (encode_plain b) in
        let header = put_be 4 (length c % u32_mod) in
        let (w1, first, second) = both_writes write w (write w header) header c refl h in
        rw (appends w1 w' c second, appends w w1 header first) (append_assoc (written w) header c)
