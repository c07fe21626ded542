-- ===== src/Repair/Examples.antt =====
-- A small repair cache and a request to it.
use gossip_mesh.Base.{◌≡◌, ◌≢◌, refl, arith, none, [], ◌∷◌}
use gossip_mesh.Base.Table.{lookup}
use gossip_mesh.Seen.{TopicSeq}
use gossip_mesh.Wire.Entry.{GossipEntry}
use gossip_mesh.Wire.Eager.{strip_type}
use gossip_mesh.Repair.{Cache, topic_seq_key, handle_request, repair_request, read_response}
use gossip_mesh.Repair.Eviction.{IsCache}
use gossip_mesh.Repair.Serving.{answer_of, pull-handle_request}

abbrev seven : TopicSeq
seven = record { topic = 3; seq = 7 }

abbrev eight : GossipEntry
eight = record { topic = 3; seq = 8; payload = 80 ∷ [] }

abbrev small_cache : Cache
small_cache = (seven, 70 ∷ []) ∷ []

-- The range statement meets the oldest key first.
abbrev head_key : Cache → TopicSeq
head_key [] = seven
head_key ((k, p) ∷ c) = k

head_key-lookup : (c : Cache) → c ≢ [] → lookup (head_key c) c ≢ none
unfolding lookup
head_key-lookup [] ne = absurd (ne refl)
head_key-lookup ((k, p) ∷ c) ne = ground (arith, topic_seq_key.same_iff k k)

small_cache-IsCache : IsCache small_cache
small_cache-IsCache = record { distinct = (tt, tt); bounded = omega arith }

pull-handle_request_example :
    read_response 3 7 (handle_request small_cache (strip_type (repair_request 3 7)))
    ≡ answer_of 3 7 (lookup seven small_cache)
pull-handle_request_example = pull-handle_request small_cache 3 7 (omega arith) (omega arith)
