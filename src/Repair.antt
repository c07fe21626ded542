-- ===== src/Repair.antt =====
-- engine/repair.go: the cache of recent entries that serves repair requests, and the pull of a missing
-- entry from a few peers. Go does not say which entry a range statement over a map meets first, so
-- the evicted key is chosen by a parameter. A stream is the list of the bytes that the other side wrote.
pub mod Eviction
pub mod Serving
mod Examples
use gossip_mesh.Base.{
  ℕ, ◌+◌, ◌<◌, ◌≤◌, ◌≡◌, ◌↔◌, arith, Bool, true, false, Option, none, some, List, [], ◌∷◌, ◌++◌,
  length, drop, leb, ltb, ◌==◌, if◌then◌else◌, ◌&&◌,
}
use gossip_mesh.Base.Table.{Key, lookup, insert, delete}
use gossip_mesh.Base.Bytes.{put_be, get_be}
use gossip_mesh.Seen.{TopicSeq}
use gossip_mesh.Wire.Entry.{GossipEntry}

abbrev pub same_key : TopicSeq → TopicSeq → Bool
same_key a b = (a.topic == b.topic) && (a.seq == b.seq)

pub same_key_iff : (a b : TopicSeq) → (same_key a b ≡ true) ↔ (a ≡ b)
same_key_iff a b = ground arith

instance abbrev pub topic_seq_key : Key TopicSeq
topic_seq_key = record { same = same_key; same_iff = same_key_iff }

abbrev pub Cache : Type 0
Cache = List (TopicSeq × List ℕ)

abbrev pub max_repair_cache : ℕ
max_repair_cache = 1024

abbrev pub key_of : GossipEntry → TopicSeq
key_of e = record { topic = e.topic; seq = e.seq }

pub cache_entry : (Cache → TopicSeq) → Cache → GossipEntry → Cache
cache_entry first_key cache e =
    let kept : Cache =
      if leb max_repair_cache (length cache) then delete (first_key cache) cache else cache in
    insert (key_of e) e.payload kept

-- What HandleRequest writes to a stream on which it reads `req`.
unfoldable pub handle_request : Cache → List ℕ → List ℕ
handle_request cache req =
    if ltb (length req) 10
    then []
    else elim (lookup (record { topic = get_be 2 req; seq = get_be 8 (drop 2 req) }) cache) [
      | none ↦ 0x00 ∷ []
      | some payload ↦ 0x01 ∷ payload
    ]

-- What a pull ends with: an error, a miss, or the entry.
pub data PullResult : Type 0 where
  failed missed : PullResult
  found : GossipEntry → PullResult

abbrev pub stream_type_repair : ℕ
stream_type_repair = 0x16

pub repair_request : ℕ → ℕ → List ℕ
repair_request topic seq = stream_type_repair ∷ (put_be 2 topic ++ put_be 8 seq)

pub read_response : ℕ → ℕ → List ℕ → PullResult
read_response topic seq [] = failed
read_response topic seq (status ∷ payload) =
    if status == 0x00
    then missed
    else found (record { topic = topic; seq = seq; payload = payload })

-- The peers are asked in turn; an error or a miss goes on to the next one. The entry found is what
-- RequestRepair hands to Receive before it returns true.
pub request_repair {ℓ} :
    {P : Type ℓ} → (P → ℕ → ℕ → PullResult) → List P → ℕ → ℕ → Option GossipEntry
request_repair pull [] topic seq = none
request_repair pull (p ∷ ps) topic seq =
    let later : Option GossipEntry = request_repair pull ps topic seq in
    elim (pull p topic seq) [ failed ↦ later | missed ↦ later | found e ↦ some e ]
