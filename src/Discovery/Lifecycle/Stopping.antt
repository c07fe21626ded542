-- ===== src/Discovery/Lifecycle/Stopping.antt =====
-- A node that joins again after its end, and the extension from Start to Stop (s3nat/s3nat.go), over the
-- store in memory.
use Prim.Native.String.{String}
use text.Mathlib.Text.{◌==◌ as str_eq}
use text.Mathlib.TextEquality.{eq_iff}
use gossip_mesh.Base.{
  ℕ, ◌≡◌, ◌⊎◌, refl, ap, ◌∙◌, arith, Bool, true, false, Option, none, some, List, [], ◌∷◌, ◌++◌,
  inl, inr, if◌then◌else◌, ◌||◌,
}
use gossip_mesh.Base.Table.{string_key, lookup, lookup-delete, IsMap}
use gossip_mesh.ObjectStore.{MemoryObjectStore, delete_object, get, failed, not_found}
use gossip_mesh.Membership.{Services, NodeMeta, Node, Event, node_join, handle_events, is_alive}
use gossip_mesh.Membership.View.{
  IsTable, heard, last_heard, known_alive, meta_of, handle_events_lem,
}
use gossip_mesh.Bootstrap.{
  NodeRegistration, key_of_node, deregister, register, RegistryResult, RegistryError, accepted,
  rejected,
}
use gossip_mesh.Bootstrap.Memory.{memory_ops}
use gossip_mesh.Discovery.{own_registration}
use gossip_mesh.Discovery.Lifecycle.{
  MeshConfig, Extension, registration_of, start_extension, extension_event, extension_run,
  stop_extension,
}
use gossip_mesh.Discovery.Lifecycle.Cleanup.{
  has_left, key_of_node-eq, IsHooked, run-store, extension_run_lem,
}

module _ {V C : Type 0} (sv : Services V C) (sprint_version : ℕ → String)
    (sort_strings : List String → List String) where
  abbrev Ext : Type 0
  Ext = Extension V C MemoryObjectStore

  abbrev event : Ext → Event → Ext
  event e ev = extension_event sv (memory_ops sprint_version sort_strings) e ev

  abbrev run : Ext → List Event → Ext
  run e evs = extension_run sv (memory_ops sprint_version sort_strings) e evs

  run-membership :
      (e : Ext) (evs : List Event) → (run e evs).membership ≡ (handle_events sv e.membership evs).0
  unfolding extension_run extension_event handle_events
  run-membership e [] = refl
  run-membership e (ev ∷ evs) = run-membership (event e ev) evs

  has_left-append :
      (id : String) (xs ys : List Event) → has_left id xs ≡ true → has_left id (xs ++ ys) ≡ true
  has_left-append id (x ∷ xs) ys h = ground (arith, has_left-append id xs ys)
  has_left-append id [] ys h = cc

  last_heard_join :
      (known : Option (NodeMeta C)) (evs : List Event) (node : Node) (meta : NodeMeta C)
      → sv.unmarshal node.meta ≡ some meta
      → last_heard sv known node.name (evs ++ node_join node ∷ []) ≡ some meta
  last_heard_join known [] node meta e = rw ((eq_iff node.name node.name).1 refl, e) refl
  last_heard_join known (ev ∷ evs) node meta e =
      last_heard_join (heard sv known node.name ev) evs node meta e

  -- If the hook of Start is set, the store has one entry for a key, and the table of members has one entry for a
  -- node, under the node's own id: a node that SWIM has given up, and that then joins again with metadata that
  -- decode, is alive for the others, and has no registration in the store.
  pub rejoined_unregistered :
      (e : Ext) (evs : List Event) (node : Node) (meta : NodeMeta C)
      → IsHooked sv sprint_version sort_strings e
      → IsTable sv e.membership
      → has_left node.name evs ≡ true
      → sv.unmarshal node.meta ≡ some meta
      → let after = run e (evs ++ node_join node ∷ []) in
        (is_alive sv after.membership node.name ≡ true)
        × (get after.store (key_of_node node.name) ≡ failed not_found)
  unfolding get
  rejoined_unregistered e evs node meta h t gone readable =
      let all = evs ++ node_join node ∷ [] in
      let (alive, _) = handle_events_lem sv e.membership all node.name t in
      let absent = (extension_run_lem sv sprint_version sort_strings e all node.name "" h).0 in
      let left_it = has_left-append node.name evs (node_join node ∷ []) gone in
      let none_there : lookup (key_of_node node.name) (run e all).store.objects ≡ none =
        rw left_it at absent in
      (
        rw (run-membership e all) (
            alive
            ∙ ap (known_alive sv)
                (last_heard_join (meta_of sv e.membership node.name) evs node meta readable)),
        rw (none_there, get) refl,
      )

  abbrev started : (NodeRegistration → Option (List ℕ)) → ℕ → MeshConfig → Ext → Ext × Bool
  started marshal now cfg e =
      start_extension sv (memory_ops sprint_version sort_strings) marshal now cfg e

  start_accepted :
      (marshal : NodeRegistration → Option (List ℕ)) (now : ℕ) (cfg : MeshConfig) (e : Ext)
      → (started marshal now cfg e).1 ≡ true
      → let e' = (started marshal now cfg e).0 in
        (e'.membership.on_leave ≡ true)
        × (e'.reg ≡ some (registration_of sv (memory_ops sprint_version sort_strings) cfg))
  unfolding start_extension
  start_accepted marshal now cfg e ok = elim (outcome refl) [
    | inl (why, refused) ↦ cc (rw (refused, start_extension) at ok)
    | inr fine ↦ rw (fine, start_extension) (refl, refl)
  ]
    where
      outcome :
          {r : RegistryResult (Unit {0})}
          → (register
              (memory_ops sprint_version sort_strings)
              marshal
              now
              e.store
              (registration_of sv (memory_ops sprint_version sort_strings) cfg)).1
            ≡ r
          → ((why : RegistryError) × (r ≡ rejected why)) ⊎ (r ≡ accepted tt)
      outcome {r = rejected why} q = inl (why, refl)
      outcome {r = accepted _} q = inr refl

  run-reg : (e : Ext) (evs : List Event) → (run e evs).reg ≡ e.reg
  unfolding extension_run extension_event
  run-reg e [] = refl
  run-reg e (ev ∷ evs) = run-reg (event e ev) evs

  stop-store :
      (e : Ext) (r : NodeRegistration) (k : String)
      → e.reg ≡ some r
      → IsMap e.store.objects
      → let e' = stop_extension sv (memory_ops sprint_version sort_strings) e in
        (e'.polling ≡ false)
        × (lookup k e'.store.objects
            ≡ (if str_eq (key_of_node r.node_id) k then none else lookup k e.store.objects))
  unfolding stop_extension deregister delete_object
  stop-store e r k mine one =
      rw (mine, stop_extension) (refl, lookup-delete (key_of_node r.node_id) k e.store.objects one)

  -- After a Start that succeeds the hook is set, and after Stop the store has no registration of
  -- the node, nor of one that has left in between; the others' registrations are those that the
  -- store had after Start.
  pub stop-start :
      (marshal : NodeRegistration → Option (List ℕ)) (now : ℕ) (cfg : MeshConfig) (e : Ext)
      (evs : List Event) (id : String)
      → let ops = memory_ops sprint_version sort_strings in
        let started = (start_extension sv ops marshal now cfg e).0 in
        let stopped = stop_extension sv ops (run started evs) in
        (start_extension sv ops marshal now cfg e).1 ≡ true
        → IsMap started.store.objects
        → (started.membership.on_leave ≡ true)
          × (stopped.polling ≡ false)
          × (lookup (key_of_node id) stopped.store.objects ≡ (
              if str_eq cfg.node_id id || has_left id evs
              then none
              else lookup (key_of_node id) started.store.objects))
  unfolding registration_of own_registration
  stop-start marshal now cfg e evs id ok one =
      let e' = (started marshal now cfg e).0 in
      let (hook, mine) = start_accepted marshal now cfg e ok in
      let h : IsHooked sv sprint_version sort_strings e' = record { one = one; hooked = hook } in
      let (ended, store) =
        stop-store (run e' evs) (registration_of sv (memory_ops sprint_version sort_strings) cfg)
          (key_of_node id) (run-reg e' evs ∙ mine)
          (run-store sv sprint_version sort_strings e' evs "" h).0.one in
      (
        hook,
        ended,
        ground (
          arith,
          store,
          key_of_node-eq cfg.node_id id,
          (extension_run_lem sv sprint_version sort_strings e' evs id "" h).0,
        ),
      )
