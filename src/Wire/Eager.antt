-- ===== src/Wire/Eager.antt =====
-- encodeEagerMessage and decodeEagerMessage of engine/engine.go, and the type byte that the
-- receiving transport or eager stream strips.
use gossip_mesh.Base.{
  ℕ, ◌+◌, ◌≡◌, arith, List, [], ◌∷◌, ◌++◌, length, length-append, drop, ltb, le→ltb, if◌then◌else◌,
}
use gossip_mesh.Base.Bytes.{put_be, get_be, length-put_be, get_be-put_be, drop-put_be}
use gossip_mesh.Wire.Entry.{GossipEntry, IsEntry, Result, ok, err, unexpected_eof}

abbrev pub msg_type_eager_gossip : ℕ
msg_type_eager_gossip = 0x02

unfoldable pub encode_eager_message : GossipEntry → List ℕ
encode_eager_message e = msg_type_eager_gossip ∷ (put_be 2 e.topic ++ (put_be 8 e.seq ++ e.payload))

unfoldable pub decode_eager_message : List ℕ → Result GossipEntry
decode_eager_message bytes =
    if ltb (length bytes) 10
    then err unexpected_eof
    else ok (record {
      topic = get_be 2 bytes;
      seq = get_be 8 (drop 2 bytes);
      payload = drop 8 (drop 2 bytes);
    })

pub length-encode_eager_message :
    (e : GossipEntry) → length (encode_eager_message e) ≡ 11 + length e.payload
unfolding encode_eager_message
length-encode_eager_message e = omega (
  arith,
  length-append (put_be 2 e.topic) (put_be 8 e.seq ++ e.payload),
  length-append (put_be 8 e.seq) e.payload,
  length-put_be 2 e.topic,
  length-put_be 8 e.seq,
)

-- The part of a message behind its type byte.
abbrev pub strip_type : List ℕ → List ℕ
strip_type [] = []
strip_type (b ∷ bs) = bs

-- A message that was encoded starts with the eager type byte, and what follows that byte decodes to
-- the entry that was encoded.
pub decode-encode_eager_message :
    (e : GossipEntry)
    → IsEntry e
    → decode_eager_message (strip_type (encode_eager_message e)) ≡ ok e
unfolding encode_eager_message decode_eager_message
decode-encode_eager_message e v = rw (
  le→ltb (length (put_be 2 e.topic ++ (put_be 8 e.seq ++ e.payload))) 10
      (omega (arith, length-encode_eager_message e)),
  get_be-put_be 2 e.topic (put_be 8 e.seq ++ e.payload) v.topic_fits,
  drop-put_be 2 e.topic (put_be 8 e.seq ++ e.payload),
  get_be-put_be 8 e.seq e.payload v.seq_fits,
  drop-put_be 8 e.seq e.payload,
)
