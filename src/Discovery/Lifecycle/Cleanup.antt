-- ===== src/Discovery/Lifecycle/Cleanup.antt =====
-- The registrations of nodes that leave (s3nat/s3nat.go), over the store in memory.
use Prim.Native.String.{String}
use text.Mathlib.Text.{◌==◌ as str_eq, starts_with}
use text.Mathlib.TextEquality.{eq_iff}
use text.Mathlib.TextPositions.{starts_with-append}
use text.Mathlib.TextLemmas.{append_cancel_left}
use gossip_mesh.Base.{
  ℕ, ◌≡◌, refl, ap, ◌∙◌, arith, Bool, true, false, none, List, [], ◌∷◌, ◌++◌, inl, inr,
  if◌then◌else◌, Bool-cases, Option-cases, ◌||◌,
}
use gossip_mesh.Base.Table.{string_key, lookup, insert, delete, lookup-delete, IsMap, delete-IsMap}
use gossip_mesh.ObjectStore.{MemoryObjectStore, delete_object}
use gossip_mesh.Membership.{
  Services, Membership, Notice, left, Node, Event, node_join, node_leave, node_update, handle_event,
  notify_join, notify_leave, notify_change, info_of,
}
use gossip_mesh.Bootstrap.{node_prefix, key_of_node, deregister}
use gossip_mesh.Bootstrap.Memory.{memory_ops}
use gossip_mesh.Discovery.Lifecycle.{Extension, on_leave_all, extension_event, extension_run}

-- Whether an event says that the node has left.
abbrev pub leaves : String → Event → Bool
leaves id (node_join node) = false
leaves id (node_update node) = false
leaves id (node_leave node) = str_eq node.name id

abbrev pub has_left : String → List Event → Bool
has_left id [] = false
has_left id (ev ∷ evs) = leaves id ev || has_left id evs

-- Whether the event is the end of the node that registers under the key.
abbrev pub gone : String → Event → Bool
gone k (node_join node) = false
gone k (node_update node) = false
gone k (node_leave node) = str_eq (key_of_node node.name) k

pub key_of_node-eq : (a b : String) → str_eq (key_of_node a) (key_of_node b) ≡ str_eq a b
key_of_node-eq a b =
    ground (
      arith,
      eq_iff a b,
      eq_iff (key_of_node a) (key_of_node b),
      append_cancel_left node_prefix a b,
    )

-- A key that is not under the prefix is no node's.
other_key : (id k : String) → starts_with k node_prefix ≡ false → str_eq (key_of_node id) k ≡ false
other_key id k e = elim (Bool-cases (str_eq (key_of_node id) k)) [
  | inr other ↦ other
  | inl same ↦
      let under : starts_with k node_prefix ≡ true =
        rw (← (eq_iff (key_of_node id) k).0 same) (starts_with-append node_prefix id) in
      cc (under, e)
]

module _ {V C : Type 0} (sv : Services V C) (sprint_version : ℕ → String)
    (sort_strings : List String → List String) where
  abbrev pub Ext : Type 0
  Ext = Extension V C MemoryObjectStore

  -- One entry for a key in the store, and the hook is set.
  pub record IsHooked (e : Ext) : Type 0 where
    pub one : IsMap e.store.objects
    pub hooked : e.membership.on_leave ≡ true

  abbrev pub event : Ext → Event → Ext
  event e ev = extension_event sv (memory_ops sprint_version sort_strings) e ev

  abbrev pub run : Ext → List Event → Ext
  run e evs = extension_run sv (memory_ops sprint_version sort_strings) e evs

  abbrev tell : MemoryObjectStore → List (Notice C) → MemoryObjectStore
  tell s ns = on_leave_all sv (memory_ops sprint_version sort_strings) s ns

  change_keeps : (m : Membership V C) (s : MemoryObjectStore) → tell s (notify_change sv m) ≡ s
  change_keeps m s = elim (Bool-cases m.on_change) [ inl e ↦ rw e refl | inr e ↦ rw e refl ]

  notify_join-keeps :
      (m : Membership V C) (node : Node) (s : MemoryObjectStore)
      → let r = notify_join sv m node in (tell s r.1 ≡ s) × (r.0.on_leave ≡ m.on_leave)
  unfolding notify_join
  notify_join-keeps m node s = elim (Option-cases (sv.unmarshal node.meta)) [
    | inl e ↦ rw (e, notify_join) (refl, refl)
    | inr (meta, e) ↦
        let m' : Membership V C = record m {
          peers = insert node.name (info_of sv m.vivaldi node meta) m.peers;
        } in
        rw (e, notify_join) (change_keeps m' s, refl)
  ]

  -- What one event does to the store: it deletes the registration of the node that leaves.
  event-store :
      (e : Ext) (ev : Event) (k : String)
      → IsHooked e
      → IsHooked (event e ev)
        × (lookup k (event e ev).store.objects
            ≡ (if gone k ev then none else lookup k e.store.objects))
  unfolding extension_event handle_event notify_leave deregister delete_object
  event-store e (node_join node) k h =
      let (same, kept) = notify_join-keeps e.membership node e.store in
      (record { one = rw same h.one; hooked = kept ∙ h.hooked }, rw same refl)
  event-store e (node_update node) k h =
      let (same, kept) = notify_join-keeps e.membership node e.store in
      (record { one = rw same h.one; hooked = kept ∙ h.hooked }, rw same refl)
  event-store e (node_leave node) k h =
      let m : Membership V C = e.membership in
      let m' : Membership V C = record m {
        vivaldi = sv.forget_node m.vivaldi node.name;
        peers = delete node.name m.peers;
      } in
      let s' = delete_object e.store (key_of_node node.name) in
      let stored : tell e.store
            ((if m.on_leave then left node.name ∷ [] else []) ++ notify_change sv m')
          ≡ s' =
        rw h.hooked (change_keeps m' s') in
      (
        record {
          one = rw stored (delete-IsMap (key_of_node node.name) e.store.objects h.one);
          hooked = h.hooked;
        },
        ap (λ s. lookup k s.objects) stored
            ∙ lookup-delete (key_of_node node.name) k e.store.objects h.one,
      )

  abbrev pub gone_in : String → List Event → Bool
  gone_in k [] = false
  gone_in k (ev ∷ evs) = gone k ev || gone_in k evs

  pub run-store :
      (e : Ext) (evs : List Event) (k : String)
      → IsHooked e
      → IsHooked (run e evs)
        × (lookup k (run e evs).store.objects
            ≡ (if gone_in k evs then none else lookup k e.store.objects))
  unfolding extension_run
  run-store e [] k h = (h, refl)
  run-store e (ev ∷ evs) k h =
      let (h', one) = event-store e ev k h in
      let (h'', rest) = run-store (event e ev) evs k h' in (h'', ground (arith, one, rest))

  gone-leaves : (id : String) (ev : Event) → gone (key_of_node id) ev ≡ leaves id ev
  gone-leaves id (node_join node) = refl
  gone-leaves id (node_update node) = refl
  gone-leaves id (node_leave node) = key_of_node-eq node.name id

  gone_in-has_left :
      (id : String) (evs : List Event) → gone_in (key_of_node id) evs ≡ has_left id evs
  gone_in-has_left id [] = refl
  gone_in-has_left id (ev ∷ evs) = rw (gone-leaves id ev, gone_in-has_left id evs) refl

  gone-other : (k : String) (ev : Event) → starts_with k node_prefix ≡ false → gone k ev ≡ false
  gone-other k (node_join node) o = refl
  gone-other k (node_update node) o = refl
  gone-other k (node_leave node) o = other_key node.name k o

  gone_in-other :
      (k : String) (evs : List Event) → starts_with k node_prefix ≡ false → gone_in k evs ≡ false
  gone_in-other k [] o = refl
  gone_in-other k (ev ∷ evs) o = rw (gone-other k ev o, gone_in-other k evs o) refl

  -- While the hook of Start is set, and the store has one entry for a key: after any events, the
  -- store has no registration of a node that has left, the others' registrations as before, and
  -- what is no registration as before.
  pub extension_run_lem :
      (e : Ext) (evs : List Event) (id k : String)
      → IsHooked e
      → let after = (run e evs).store.objects in
        (lookup (key_of_node id) after
          ≡ (if has_left id evs then none else lookup (key_of_node id) e.store.objects))
        × (starts_with k node_prefix ≡ false → lookup k after ≡ lookup k e.store.objects)
  extension_run_lem e evs id k h = (
    (run-store e evs (key_of_node id) h).1
        ∙ ap (λ b. if b then none else lookup (key_of_node id) e.store.objects)
            (gone_in-has_left id evs),
    λ other.
        (run-store e evs k h).1
        ∙ ap (λ b. if b then none else lookup k e.store.objects) (gone_in-other k evs other),
  )
