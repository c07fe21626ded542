-- ===== src/Discovery/Lifecycle/Examples.antt =====
-- A node that hears of another one's end while both are registered.
use Prim.Native.String.{String}
use gossip_mesh.Base.{
  ℕ, arith, ◌≡◌, ◌≢◌, ◌||◌, refl, true, false, Option, none, some, List, [], ◌∷◌, ◌++◌,
  if◌then◌else◌, All,
}
use text.Mathlib.Text.{◌==◌ as str_eq, starts_with}
use text.Mathlib.TextEquality.{eq_iff}
use gossip_mesh.Base.Table.{string_key, lookup, insert, IsMap}
use gossip_mesh.ObjectStore.{MemoryObjectStore, put, store_object, get, failed, not_found}
use gossip_mesh.Membership.{is_alive, node_join}
use gossip_mesh.Membership.Examples.{plain, no_members, node_b, port_meta, three_events}
use gossip_mesh.Membership.View.{IsTable}
use gossip_mesh.Bootstrap.{NodeRegistration, ObjectStoreOps, node_prefix, key_of_node, register}
use gossip_mesh.Bootstrap.Memory.{memory_ops}
use gossip_mesh.Discovery.Registered.{JoinOnly}
use gossip_mesh.Discovery.Examples.{self_registered, Registered-always}
use gossip_mesh.Discovery.Lifecycle.{
  MeshConfig, Extension, registration_of, start_extension, extension_run, stop_extension, tick,
  cancelled, connect_rounds,
}
use gossip_mesh.Discovery.Lifecycle.Cleanup.{has_left, IsHooked, extension_run_lem}
use gossip_mesh.Discovery.Lifecycle.Stopping.{rejoined_unregistered, stop-start}
use gossip_mesh.Discovery.Lifecycle.Polling.{connect_rounds-JoinOnly}

abbrev version_name : ℕ → String
version_name n = "v"

abbrev same_order : List String → List String
same_order ks = ks

abbrev store_ops : ObjectStoreOps MemoryObjectStore
store_ops = memory_ops version_name same_order

abbrev registry : MemoryObjectStore
registry = record {
  objects =
      ("nodes/b", record { data_bytes = 98 ∷ []; etag = "v" })
      ∷ ("ca/cert.pem", record { data_bytes = 1 ∷ []; etag = "v" })
      ∷ [];
  version = 2;
}

abbrev config_a : MeshConfig
config_a = record { node_id = "a"; bind_addr = "10.0.0.1"; bind_port = 7000 }

abbrev one_byte : NodeRegistration → Option (List ℕ)
one_byte r = some (97 ∷ [])

abbrev before : Extension ℕ ℕ MemoryObjectStore
before = record {
  membership = no_members;
  store = registry;
  reg = none;
  polling = false;
  reflecting = false;
}

abbrev started : Extension ℕ ℕ MemoryObjectStore
started = (start_extension plain store_ops one_byte 5 config_a before).0

started_ok : (start_extension plain store_ops one_byte 5 config_a before).1 ≡ true
unfolding start_extension register put store_object lookup insert registration_of
started_ok = refl

differ : (a b : String) → str_eq a b ≡ false → a ≢ b
differ a b e same = ground (arith, eq_iff a b, same, e)

started_IsMap : IsMap started.store.objects
unfolding start_extension registration_of register put store_object lookup insert
started_IsMap = ((differ _ _ refl, (differ _ _ refl, tt)), ((differ _ _ refl, tt), (tt, tt)))

stop-start_example :
    let stopped =
      stop_extension plain store_ops (extension_run plain store_ops started three_events) in
    (started.membership.on_leave ≡ true)
    × (stopped.polling ≡ false)
    × (lookup (key_of_node "b") stopped.store.objects ≡ (
        if str_eq "a" "b" || has_left "b" three_events
        then none
        else lookup (key_of_node "b") started.store.objects))
stop-start_example =
    stop-start plain version_name same_order one_byte 5 config_a before three_events "b" started_ok
      started_IsMap

started-IsHooked : IsHooked plain version_name same_order started
unfolding start_extension register put store_object lookup insert registration_of
started-IsHooked = record { one = started_IsMap; hooked = refl }

extension_run_lem_example :
    let after = (extension_run plain store_ops started three_events).store.objects in
    (lookup (key_of_node "b") after ≡ (
      if has_left "b" three_events then none else lookup (key_of_node "b") started.store.objects))
    × (starts_with "ca/cert.pem" node_prefix ≡ false
        → lookup "ca/cert.pem" after ≡ lookup "ca/cert.pem" started.store.objects)
extension_run_lem_example =
    extension_run_lem plain version_name same_order started three_events "b" "ca/cert.pem"
      started-IsHooked

started_table : IsTable plain started.membership
unfolding start_extension register put store_object lookup insert registration_of
started_table = record { one = tt; own = tt }

rejoined_unregistered_example :
    let after = extension_run plain store_ops started (three_events ++ node_join node_b ∷ []) in
    (is_alive plain after.membership "b" ≡ true)
    × (get after.store (key_of_node "b") ≡ failed not_found)
rejoined_unregistered_example =
    rejoined_unregistered plain version_name same_order started three_events node_b (port_meta 7002)
      started-IsHooked started_table refl refl

connect_rounds-JoinOnly_example :
    All JoinOnly (connect_rounds self_registered "a" tt (tick ∷ cancelled ∷ tick ∷ [])).1
connect_rounds-JoinOnly_example =
    connect_rounds-JoinOnly self_registered "a" Registered-always tt (tick ∷ cancelled ∷ tick ∷ [])
