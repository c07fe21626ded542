-- ===== src/Repair/Eviction.antt =====
-- The bounded cache (engine/repair.go).
use gossip_mesh.Base.{
  ◌<◌, ◌≤◌, ◌≡◌, ◌≢◌, ap, arith, none, some, [], length, leb, if◌then◌else◌, ◌&&◌, Bool-cases,
  Option-cases, inl, inr,
}
use gossip_mesh.Base.Table.{
  lookup, delete, IsMap, insert-IsMap, delete-IsMap, lookup-insert, lookup-delete, length-delete,
  length-insert-le,
}
use gossip_mesh.Seen.{TopicSeq}
use gossip_mesh.Wire.Entry.{GossipEntry}
use gossip_mesh.Repair.{Cache, same_key, topic_seq_key, max_repair_cache, key_of, cache_entry}

-- One payload for each key, and no more than the limit.
pub record IsCache (c : Cache) : Type 0 where
  pub distinct : IsMap c
  pub bounded : length c ≤ max_repair_cache

module _ (first_key : Cache → TopicSeq)
    (is_key : (c : Cache) → c ≢ [] → lookup (first_key c) c ≢ none) where
  evicted-IsCache :
      (c : Cache)
      → IsCache c
      → max_repair_cache ≤ length c
      → length (delete (first_key c) c) < max_repair_cache
  evicted-IsCache c v full = elim (Option-cases (lookup (first_key c) c)) [
    | inl e ↦ absurd (is_key c (λ h. omega (arith, ap length h, full)) e)
    | inr (p, e) ↦ omega (arith, length-delete (first_key c) p c e, v.bounded)
  ]

  -- If the key that is met first in a cache with entries is one of its keys, caching an entry keeps
  -- one payload for each key and no more than 1024 of them.
  pub cache_entry-IsCache :
      (c : Cache) (e : GossipEntry) → IsCache c → IsCache (cache_entry first_key c e)
  unfolding cache_entry
  cache_entry-IsCache c e v = elim (Bool-cases (leb max_repair_cache (length c))) [
    | inl full ↦ rw full (record {
      distinct = insert-IsMap (key_of e) e.payload _ (delete-IsMap (first_key c) c v.distinct);
      bounded = omega (
        arith,
        length-insert-le (key_of e) e.payload (delete (first_key c) c),
        evicted-IsCache c v (ground arith),
      );
    })
    | inr room ↦
        let below : length c < max_repair_cache = ground arith in
        rw room (record {
          distinct = insert-IsMap (key_of e) e.payload c v.distinct;
          bounded = omega (arith, length-insert-le (key_of e) e.payload c, below);
        })
  ]

-- After an entry is cached, its key gives its payload, the key that was met first gives nothing if
-- the cache was full, and every other key gives what it gave before.
pub lookup-cache_entry :
    (first_key : Cache → TopicSeq) (c : Cache) (e : GossipEntry) (k : TopicSeq)
    → IsCache c
    → lookup k (cache_entry first_key c e) ≡ (
        if same_key (key_of e) k
        then some e.payload
        else if leb max_repair_cache (length c) && same_key (first_key c) k
        then none
        else lookup k c)
unfolding cache_entry
lookup-cache_entry first_key c e k v = elim (Bool-cases (leb max_repair_cache (length c))) [
  | inl full ↦ rw (
    full,
    lookup-insert (key_of e) k e.payload (delete (first_key c) c),
    lookup-delete (first_key c) k c v.distinct,
  )
  | inr room ↦ rw (room, lookup-insert (key_of e) k e.payload c)
]
