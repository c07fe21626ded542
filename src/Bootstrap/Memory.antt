-- ===== src/Bootstrap/Memory.antt =====
-- The registry over the store in memory (bootstrap/registry.go, objstore/memstore.go).
use Prim.Native.String.{String}
use text.Mathlib.Text.{◌==◌ as str_eq, starts_with}
use text.Mathlib.TextEquality.{eq_iff}
use text.Mathlib.TextPositions.{starts_with-append}
use gossip_mesh.Base.{
  ℕ, ◌≡◌, refl, ap, ◌∙◌, Bool, true, Option, some, List, [], ◌∷◌, Any, inl, inr, keep_if,
  Bool-cases,
}
use gossip_mesh.Base.Table.{string_key, insert, keys}
use gossip_mesh.ObjectStore.{
  MemoryObjectStore, ObjectInfo, StoreResult, done, failed, MemObject, put, get, list,
  delete_object,
}
use gossip_mesh.ObjectStore.Conditional.{get-put, put-insert}
use gossip_mesh.Bootstrap.{
  NodeRegistration, ObjectStoreOps, RegistryResult, accepted, rejected, put_registration,
  node_prefix, key_of_node, stamped, register, discover_peers,
}
use gossip_mesh.Bootstrap.Discovery.{Registered, discover_loop_finds}

-- The store in memory as the registry's interface.
abbrev pub memory_ops :
    (ℕ → String) → (List String → List String) → ObjectStoreOps MemoryObjectStore
memory_ops sprint_version sort_strings = record {
  put_object = put sprint_version;
  get_object = get;
  list_keys = λ s prefix. done (list sort_strings s prefix);
  delete_key = λ s key. (delete_object s key, done tt);
}

keys-insert :
    (k : String) (x : MemObject) (m : List (String × MemObject))
    → Any (λ j. j ≡ k) (keys (insert k x m))
unfolding insert
keys-insert k x [] = inl refl
keys-insert k x ((b, y) ∷ m) = elim (Bool-cases (str_eq b k)) [
  | inl same ↦ rw same (inl refl)
  | inr other ↦ rw other (inr (keys-insert k x m))
]

pub kept :
    (p : String → Bool) (k : String) (ks : List String)
    → p k ≡ true
    → Any (λ j. j ≡ k) ks
    → Any (λ j. j ≡ k) (keep_if p ks)
kept p k [] good there = there
kept p k (j ∷ ks) good (inl here) =
    let yes : p j ≡ true = ap p here ∙ good in rw (yes, keep_if) (inl here)
kept p k (j ∷ ks) good (inr later) = elim (Bool-cases (p j)) [
  | inl e ↦ rw (e, keep_if) (inr (kept p k ks good later))
  | inr e ↦ rw (e, keep_if) (kept p k ks good later)
]

pub Any-imp :
    (P Q : String → Type 0) (ks : List String) → ((k : String) → P k → Q k) → Any P ks → Any Q ks
Any-imp P Q [] f a = a
Any-imp P Q (k ∷ ks) f (inl here) = inl (f k here)
Any-imp P Q (k ∷ ks) f (inr later) = inr (Any-imp P Q ks f later)

module _ (sprint_version : ℕ → String) (sort_strings : List String → List String)
    (sorts : (k : String) (ks : List String)
      → Any (λ j. j ≡ k) ks
      → Any (λ j. j ≡ k) (sort_strings ks)) where
  -- A completed put is listed under the prefixes of its key.
  pub listed-put :
      (s : MemoryObjectStore) (prefix key : String) (bytes : List ℕ) (s' : MemoryObjectStore)
      (info : ObjectInfo)
      → starts_with key prefix ≡ true
      → put sprint_version s key bytes [] ≡ (s', done info)
      → Any (λ j. j ≡ key) (list sort_strings s' prefix)
  unfolding list
  listed-put s prefix key bytes s' info under e = sorts key _ (
      kept (λ k. starts_with k prefix) key (keys s'.objects) under
        (rw (put-insert sprint_version s key bytes [] s' info e) (
          keys-insert key (record { data_bytes = bytes; etag = sprint_version s.version })
            s.objects)))

  register_stored :
      (marshal : NodeRegistration → Option (List ℕ)) (now : ℕ) (s s' : MemoryObjectStore)
      (r : NodeRegistration) (bytes : List ℕ)
      → marshal (stamped now r) ≡ some bytes
      → register (memory_ops sprint_version sort_strings) marshal now s r ≡ (s', accepted tt)
      → (info : ObjectInfo) × (put sprint_version s (key_of_node r.node_id) bytes []
          ≡ (s', done info))
  unfolding register
  register_stored marshal now s s' r bytes written e =
      stored (put sprint_version s (key_of_node r.node_id) bytes []) refl
        (rw (written, register) at e)
    where
      stored :
          (result : MemoryObjectStore × StoreResult ObjectInfo)
          → put sprint_version s (key_of_node r.node_id) bytes [] ≡ result
          → ◌≡◌ {A = MemoryObjectStore × RegistryResult (Unit {0})}
              (
                result.0,
                elim result.1 as (λ x. RegistryResult (Unit {0})) [
                  | done info ↦ accepted tt
                  | failed why ↦ rejected (put_registration why)
                ],
              )
              (s', accepted tt)
          → (info : ObjectInfo) × (put sprint_version s (key_of_node r.node_id) bytes []
              ≡ (s', done info))
      stored (t, done info) p h = (info, p ∙ ap (λ x. (x.0, done info)) h)
      stored (t, failed why) p h = cc h

  -- A node that has registered is discovered: if Register returned no error, the sort keeps the
  -- keys, the stamped registration's bytes read back as it, and the discovery succeeds, then the
  -- registration is among its results.
  pub discover-register :
      (marshal : NodeRegistration → Option (List ℕ)) (unmarshal : List ℕ → Option NodeRegistration)
      (now : ℕ) (s s' : MemoryObjectStore) (r : NodeRegistration) (bytes : List ℕ)
      (rs : List NodeRegistration)
      → marshal (stamped now r) ≡ some bytes
      → unmarshal bytes ≡ some (stamped now r)
      → register (memory_ops sprint_version sort_strings) marshal now s r ≡ (s', accepted tt)
      → discover_peers (memory_ops sprint_version sort_strings) unmarshal s' ≡ accepted rs
      → Any (λ x. x ≡ stamped now r) rs
  unfolding discover_peers
  discover-register marshal unmarshal now s s' r bytes rs written readable e found =
      let ops = memory_ops sprint_version sort_strings in
      let key = key_of_node r.node_id in
      let (info, stored) = register_stored marshal now s s' r bytes written e in
      let there : get s' key ≡ done (bytes, info) =
        get-put sprint_version s key key bytes [] s' info stored
        ∙ rw ((eq_iff key key).1 refl) refl in
      discover_loop_finds ops unmarshal s' (list sort_strings s' node_prefix) rs (stamped now r)
        found
        (Any-imp (λ j. j ≡ key) (Registered ops unmarshal s' (stamped now r))
          (list sort_strings s' node_prefix) (λ k same. (bytes, info, rw same there, readable))
          (listed-put s node_prefix key bytes s' info (starts_with-append node_prefix r.node_id)
            stored))
