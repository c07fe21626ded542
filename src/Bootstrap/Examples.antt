-- ===== src/Bootstrap/Examples.antt =====
-- One node that registers in an empty store.
use Prim.Native.String.{String, ◌++◌ as append}
use gossip_mesh.Base.{ℕ, zero, suc, ◌≡◌, refl, false, Option, some, List, [], ◌∷◌, Any}
use gossip_mesh.Base.Table.{string_key, insert, lookup}
use gossip_mesh.ObjectStore.{MemoryObjectStore, store_object, put, get, list}
use gossip_mesh.Bootstrap.{
  NodeRegistration, accepted, stamped, register, discover_loop, discover_peers,
}
use gossip_mesh.Bootstrap.Memory.{memory_ops, discover-register}

abbrev node_a : NodeRegistration
node_a = record {
  node_id = "a";
  addrs = "10.0.0.1:7000" ∷ [];
  public_addr = "";
  is_relay = false;
  registered_at = 0;
}

-- Codecs that know this node, registered at time 5, alone.
abbrev marshal_a : NodeRegistration → Option (List ℕ)
marshal_a r = some (97 ∷ [])

abbrev unmarshal_a : List ℕ → Option NodeRegistration
unmarshal_a bytes = some (record node_a { registered_at = 5 })

abbrev version_name : ℕ → String
version_name zero = "v"
version_name (suc n) = append "v" (version_name n)

abbrev same_order : List String → List String
same_order ks = ks

abbrev empty_store : MemoryObjectStore
empty_store = record { objects = []; version = 0 }

abbrev store_a : MemoryObjectStore
store_a = record {
  objects = ("nodes/a", record { data_bytes = 97 ∷ []; etag = "v" }) ∷ [];
  version = 1;
}

registered_a :
    register (memory_ops version_name same_order) marshal_a 5 empty_store node_a
    ≡ (store_a, accepted tt)
unfolding register put store_object insert lookup
registered_a = refl

discovered_a :
    discover_peers (memory_ops version_name same_order) unmarshal_a store_a
    ≡ accepted (record node_a { registered_at = 5 } ∷ [])
unfolding discover_peers discover_loop get list lookup
discovered_a = refl

discover-register_example :
    Any (λ x. x ≡ stamped 5 node_a) (record node_a { registered_at = 5 } ∷ [])
discover-register_example =
    discover-register version_name same_order (λ k ks there. there) marshal_a unmarshal_a 5
      empty_store store_a node_a (97 ∷ []) (record node_a { registered_at = 5 } ∷ []) refl refl
      registered_a discovered_a
