-- ===== src/Membership/Announce.antt =====
-- What a node announces of itself, and what the others make of it (membership/delegate.go, membership/events.go,
-- membership/ping.go).
use Prim.Native.String.{String}
use gossip_mesh.Base.{
  ℕ, ◌<◌, ◌≡◌, refl, sym, ap, ◌∙◌, arith, false, none, some, List, [], length, inl, inr, ltb,
  Bool-cases, Option-cases,
}
use gossip_mesh.Base.Table.{string_key, lookup-insert-same}
use gossip_mesh.Membership.{
  NodeMeta, Node, Services, Membership, notify_join, node_meta, notify_ping_complete, info_of,
}
use gossip_mesh.Membership.View.{meta_of, meta_in}

module _ {V C : Type 0} (sv : Services V C) where
  -- The node that memberlist reports to the others for one that announces this metadata.
  abbrev pub announced : String → String → NodeMeta C → ℕ → Node
  announced name addr meta limit = record {
    name = name;
    addr = addr;
    meta = node_meta sv meta limit;
  }

  -- If the encoded metadata can be decoded again, and no bytes at all cannot, a node whose metadata fits
  -- memberlist's limit enters the others' tables with it; one whose metadata is longer changes nothing there.
  pub notify_join-node_meta :
      (m : Membership V C) (name addr : String) (meta : NodeMeta C) (limit : ℕ) (bytes : List ℕ)
      → sv.marshal meta ≡ some bytes
      → sv.unmarshal bytes ≡ some meta
      → sv.unmarshal [] ≡ none
      → let m' = (notify_join sv m (announced name addr meta limit)).0 in
        (limit < length bytes → m' ≡ m)
        × ((limit < length bytes → ⊥) → meta_of sv m' name ≡ some meta)
  unfolding notify_join node_meta
  notify_join-node_meta m name addr meta limit bytes made read empty =
      elim (Bool-cases (ltb limit (length bytes))) [
        | inl long ↦
            rw (made, node_meta, long, notify_join, empty)
              (λ _. refl, λ short. absurd (short (ground arith)))
        | inr short ↦
            rw (made, node_meta, short, notify_join, read)
              (
                λ long. absurd (ground (arith, long)),
                λ _. ap (meta_in sv) (
                    lookup-insert-same name
                      (info_of sv m.vivaldi (record { name = name; addr = addr; meta = bytes })
                        meta)
                      m.peers),
              )
      ]

  -- The metadata has the coordinate that the Vivaldi client has.
  abbrev pub IsSynced : Membership V C → Type 0
  IsSynced m = m.meta.vivaldi_coord ≡ some (sv.get_coordinate m.vivaldi)

  -- If an update that the Vivaldi client refuses leaves its coordinate, a completed ping leaves the announced
  -- coordinate equal to the client's, whatever payload it carries.
  pub notify_ping_complete-IsSynced :
      (m : Membership V C) (other : Node) (rtt : ℕ) (payload : List ℕ)
      → ((c : C)
          → (sv.update m.vivaldi other.name c rtt).1 ≡ false
          → sv.get_coordinate (sv.update m.vivaldi other.name c rtt).0
            ≡ sv.get_coordinate m.vivaldi)
      → IsSynced m
      → IsSynced (notify_ping_complete sv m other rtt payload)
  unfolding notify_ping_complete
  notify_ping_complete-IsSynced m other rtt payload refused synced =
      elim (Option-cases (sv.unmarshal_coordinate payload)) [
        | inl e ↦ rw (e, notify_ping_complete) synced
        | inr (c, e) ↦ elim (Bool-cases (sv.is_valid c)) [
          | inr bad ↦ rw (e, notify_ping_complete, bad) synced
          | inl good ↦ elim (Bool-cases (sv.update m.vivaldi other.name c rtt).1) [
            | inl ok ↦ rw (e, notify_ping_complete, good, ok) refl
            | inr not_ok ↦
                rw (e, notify_ping_complete, good, not_ok)
                  (synced ∙ ap some (sym (refused c not_ok)))
          ]
        ]
      ]
