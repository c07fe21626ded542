-- ===== src/Bootstrap.antt =====
-- bootstrap/registry.go: the nodes' registrations in an object store. The store is an interface that
-- objstore/objstore.go declares; encoding/json and the clock are parameters, and errors are values.
pub mod Discovery
pub mod Memory
pub mod ClusterTls
mod Examples
use Prim.Native.String.{String, ◌++◌ as append}
use gossip_mesh.Base.{ℕ, ◌==◌, Bool, true, false, Option, none, some, List, [], ◌∷◌, if◌then◌else◌}
use gossip_mesh.ObjectStore.{
  StoreError, StoreResult, done, failed, not_found, ObjectInfo, PutOption,
}

-- The time is in nanoseconds, and zero if it is not set.
pub record NodeRegistration : Type 0 where
  pub node_id : String
  pub addrs : List String
  pub public_addr : String
  pub is_relay : Bool
  pub registered_at : ℕ

-- ObjectStore: what a caller may ask of a store in state `S`.
pub record ObjectStoreOps (S : Type 0) : Type 0 where
  pub put_object : S → String → List ℕ → List PutOption → S × StoreResult ObjectInfo
  pub get_object : S → String → StoreResult (List ℕ × ObjectInfo)
  pub list_keys : S → String → StoreResult (List String)
  pub delete_key : S → String → S × StoreResult (Unit {0})

pub data RegistryError : Type 0 where
  marshal_registration : RegistryError
  put_registration list_nodes : StoreError → RegistryError
  get_node : String → StoreError → RegistryError

pub data RegistryResult {ℓ} (A : Type ℓ) : Type ℓ where
  accepted : A → RegistryResult A
  rejected : RegistryError → RegistryResult A

abbrev pub node_prefix : String
node_prefix = "nodes/"

abbrev pub key_of_node : String → String
key_of_node id = append node_prefix id

abbrev pub stamped : ℕ → NodeRegistration → NodeRegistration
stamped now r = if r.registered_at == 0 then record r { registered_at = now } else r

module _ {S : Type 0} (ops : ObjectStoreOps S) where
  -- The store after Register, and its error if there is one.
  unfoldable pub register :
      (NodeRegistration → Option (List ℕ))
      → ℕ
      → S
      → NodeRegistration
      → S × RegistryResult (Unit {0})
  register marshal now s r = elim (marshal (stamped now r)) [
    | none ↦ (s, rejected marshal_registration)
    | some bytes ↦
        let (s', result) = ops.put_object s (key_of_node r.node_id) bytes [] in
        (s', elim result [ done info ↦ accepted tt | failed e ↦ rejected (put_registration e) ])
  ]

  unfoldable pub deregister : S → String → S × StoreResult (Unit {0})
  deregister s id = ops.delete_key s (key_of_node id)

  -- The loop of DiscoverPeers: a key whose object has gone, or is malformed, is passed over.
  pub discover_loop :
      (List ℕ → Option NodeRegistration) → S → List String → RegistryResult (List NodeRegistration)
  discover_loop unmarshal s [] = accepted []
  discover_loop unmarshal s (key ∷ rest) =
      let later : RegistryResult (List NodeRegistration) = discover_loop unmarshal s rest in
      elim (ops.get_object s key) [
        | failed not_found ↦ later
        | failed e ↦ rejected (get_node key e)
        | done (bytes, info) ↦ elim (unmarshal bytes) [
          | none ↦ later
          | some r ↦ elim later [ accepted rs ↦ accepted (r ∷ rs) | rejected e ↦ rejected e ]
        ]
      ]

  pub discover_peers :
      (List ℕ → Option NodeRegistration) → S → RegistryResult (List NodeRegistration)
  discover_peers unmarshal s = elim (ops.list_keys s node_prefix) [
    | failed e ↦ rejected (list_nodes e)
    | done found ↦ discover_loop unmarshal s found
  ]
