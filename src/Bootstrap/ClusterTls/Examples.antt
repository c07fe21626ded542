-- ===== src/Bootstrap/ClusterTls/Examples.antt =====
-- Two nodes that start on an empty store, and one that dies between its two Puts.
use Prim.Native.String.{String}
use gossip_mesh.Base.{ℕ, arith, suc, ◌≡◌, refl, Option, none, some, List, [], ◌∷◌}
use gossip_mesh.Base.Table.{string_key, lookup, insert}
use gossip_mesh.ObjectStore.{MemoryObjectStore, failed, not_found, get, put, store_object}
use gossip_mesh.Bootstrap.{ObjectStoreOps}
use gossip_mesh.Bootstrap.Memory.{memory_ops}
use gossip_mesh.Bootstrap.ClusterTls.{
  Ca, ended, TlsResult, returns, refuses, generate_ca, ca_cert_path, ca_key_path, Nodes, ca_step,
  nodes_step, nodes_run, nodes_start, get_or_create_ca, TlsUtil, config_of,
}
use gossip_mesh.Bootstrap.ClusterTls.Points.{Holds, Paired}
use gossip_mesh.Bootstrap.ClusterTls.Agreement.{Generates, nodes_run_agree}
use gossip_mesh.Bootstrap.ClusterTls.Orphan.{IsOrphaned, nodes_run_orphaned}
use gossip_mesh.Bootstrap.ClusterTls.Trust.{IsTlsUtil, get_or_create_ca_shared}

abbrev tally : ℕ → String
tally n = "v"

abbrev same_order : List String → List String
same_order ks = ks

abbrev empty_store : MemoryObjectStore
empty_store = record { objects = []; version = 0 }

abbrev store_ops : ObjectStoreOps MemoryObjectStore
store_ops = memory_ops tally same_order

-- A certificate and its key have the same bytes.
abbrev Matches : Ca → Type 0
Matches ca = ca.0 ≡ ca.1

abbrev first_ca : Ca
first_ca = (1 ∷ [], 1 ∷ [])

abbrev second_ca : Ca
second_ca = (2 ∷ [], 2 ∷ [])

-- Both find no CA; the second node's Put of its certificate is refused, and it reads the first one's CA.
abbrev schedule : List (ℕ × Option Ca)
schedule =
    (0, none)
    ∷ (1, none)
    ∷ (0, some first_ca)
    ∷ (1, some second_ca)
    ∷ (0, none)
    ∷ (1, none)
    ∷ (0, none)
    ∷ (1, none)
    ∷ (1, none)
    ∷ []

abbrev after : Nodes MemoryObjectStore
after = nodes_run store_ops (nodes_start store_ops empty_store) schedule

no_keys : Paired tally Matches empty_store
unfolding get lookup
no_keys key (info, e) = cc e

first_ended : after.pcs 0 ≡ ended (returns first_ca)
unfolding nodes_run nodes_step ca_step put get lookup insert store_object
first_ended = refl

second_ended : after.pcs 1 ≡ ended (returns first_ca)
unfolding nodes_run nodes_step ca_step put get lookup insert store_object
second_ended = refl

generated_match : (c : Ca) (f : Ca) → c.0 ≡ c.1 → some c ≡ some f → Matches f
generated_match c f m e = cc (e, m)

none_generated : (P : Ca → Type 0) (ca : Ca) → ◌≡◌ {A = Option Ca} none (some ca) → P ca
none_generated P ca e = cc e

schedule-Generates : Generates Matches schedule
schedule-Generates = (
  none_generated Matches,
  (
    none_generated Matches,
    (
      λ c e. generated_match first_ca c refl e,
      (
        λ c e. generated_match second_ca c refl e,
        (
          none_generated Matches,
          (
            none_generated Matches,
            (none_generated Matches, (none_generated Matches, (none_generated Matches, tt))),
          ),
        ),
      ),
    ),
  ),
)

nodes_run_agree_example :
    ◌≡◌ {A = Ca} first_ca first_ca
    × Matches first_ca
    × Holds after.store ca_cert_path first_ca.0
    × Holds after.store ca_key_path first_ca.1
nodes_run_agree_example =
    nodes_run_agree tally same_order Matches empty_store schedule 0 1 first_ca first_ca no_keys
      schedule-Generates first_ended second_ended

-- The first node dies before its second Put.
abbrev orphaned_store : MemoryObjectStore
orphaned_store = record {
  objects = ("ca/cert.pem", record { data_bytes = 1 ∷ []; etag = "v" }) ∷ [];
  version = 1;
}

left_behind :
    (nodes_run store_ops
      (nodes_start store_ops empty_store)
      ((0, none) ∷ (0, some first_ca) ∷ (0, none) ∷ [])).store
    ≡ orphaned_store
unfolding nodes_run nodes_step ca_step put get lookup insert store_object
left_behind = refl

orphaned_store-IsOrphaned : IsOrphaned orphaned_store
unfolding get lookup
orphaned_store-IsOrphaned = ((1 ∷ [], (record { size = 1; etag = "v" }, refl)), refl)

nodes_run_orphaned_example :
    let r = nodes_run store_ops (nodes_start store_ops orphaned_store) schedule in
    (r.store ≡ orphaned_store)
    × (r.pcs 1 ≡ ended (refuses generate_ca)
        → ◌≡◌ {A = TlsResult Ca} (refuses generate_ca) (refuses generate_ca))
nodes_run_orphaned_example =
    nodes_run_orphaned tally same_order orphaned_store orphaned_store-IsOrphaned schedule 1
      (refuses generate_ca)

absent : (k : String) → get empty_store k ≡ failed not_found
unfolding get lookup
absent k = refl

get_or_create_ca_shared_example :
    (s' : MemoryObjectStore) × (get_or_create_ca store_ops (λ n. some first_ca) 1 empty_store
      ≡ (s', some (returns first_ca)))
    × ((others : ℕ → Option Ca) (m : ℕ)
        → get_or_create_ca store_ops others (suc m) s' ≡ (s', some (returns first_ca)))
get_or_create_ca_shared_example =
    get_or_create_ca_shared tally same_order empty_store first_ca (λ n. some first_ca) 0
      (absent "ca/cert.pem") (absent "ca/key.pem") refl

-- A node's certificate is its CA's key with its id's bytes left out; it verifies under the same bytes.
abbrev plain_util : TlsUtil (List ℕ × List ℕ)
plain_util = record {
  node_cert = λ ca id. some (ca.1, ca.1);
  mutual_config = λ cert key root. some (root, cert);
}

plain_util-IsTlsUtil : IsTlsUtil plain_util Matches (λ root cert. root ≡ cert) (λ t. t.0) (λ t. t.1)
plain_util-IsTlsUtil = record {
  signed = λ ca id cert key good e. ground (arith, e, good);
  configured = λ cert key root config e. (ground (arith, e), ground (arith, e));
}

configured_first :
    (id : String) → config_of plain_util id (returns first_ca) ≡ returns (1 ∷ [], 1 ∷ [])
unfolding config_of
configured_first id = refl
