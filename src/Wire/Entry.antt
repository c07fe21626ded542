-- ===== src/Wire/Entry.antt =====
-- GossipEntry of engine/engine.go, and the result type of the decoders.
use gossip_mesh.Base.{
  ℕ, ◌<◌, ◌≡◌, refl, ◌⊎◌, inl, inr, List, length, All, u16_mod, u32_mod, u64_mod,
}
use gossip_mesh.Base.Bytes.{IsByte}
use gossip_mesh.Seen.{TopicSeq}

pub record GossipEntry : Type 0 where
  pub topic : ℕ
  pub seq : ℕ
  pub payload : List ℕ

-- The ranges of the Go types; a payload's length is written in four bytes.
pub record IsEntry (e : GossipEntry) : Type 0 where
  pub topic_fits : e.topic < u16_mod
  pub seq_fits : e.seq < u64_mod
  pub payload_fits : length e.payload < u32_mod
  pub payload_bytes : All IsByte e.payload

pub record IsMark (m : TopicSeq) : Type 0 where
  pub topic_fits : m.topic < u16_mod
  pub seq_fits : m.seq < u64_mod

pub data DecodeError : Type 0 where
  unexpected_eof zstd_decompress batch_too_short truncated_hwm_header batch_too_large : DecodeError
  truncated_entry truncated_payload truncated_hwm : ℕ → DecodeError

pub data Result {ℓ} (A : Type ℓ) : Type ℓ where
  ok : A → Result A
  err : DecodeError → Result A

infixl 5 ◌>>=◌
abbrev pub ◌>>=◌ {ℓ κ} : {A : Type ℓ} {B : Type κ} → Result A → (A → Result B) → Result B
ok a >>= f = f a
err e >>= f = err e

pub Result-cases {ℓ} :
    {A : Type ℓ} (r : Result A) → ((a : A) × (r ≡ ok a)) ⊎ ((e : DecodeError) × (r ≡ err e))
Result-cases (ok a) = inl (a, refl)
Result-cases (err e) = inr (e, refl)
