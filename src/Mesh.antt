-- ===== src/Mesh.antt =====
-- mesh/mesh.go: how the membership's changes reach the overlay.
pub mod Follows
pub mod Lifecycle
mod Examples
use Prim.Native.String.{String}
use gossip_mesh.Base.{List, [], ◌∷◌, map, true}
use gossip_mesh.Membership.{
  Services, Membership, Notice, changed, left, Event, handle_event, set_on_change,
}
use gossip_mesh.Membership as Members
use gossip_mesh.Overlay.{Overlay, PeerInfo, reclassify}

pub record Mesh (V C : Type 0) : Type 0 where
  pub membership : Membership V C
  pub overlay : Overlay

module _ {V C : Type 0} (sv : Services V C) (sort_by_rtt : List PeerInfo → List PeerInfo) where
  abbrev pub overlay_peer : Members.PeerInfo C → PeerInfo
  overlay_peer p = record {
    node_id = p.node_id;
    addr = sv.join_host_port p.meta.quic_addr p.meta.quic_port;
    rtt = p.rtt;
  }

  -- The callback that Join sets with SetOnChange; none is set for a node that leaves.
  abbrev pub take_notice : Overlay → Notice C → Overlay
  take_notice o (changed ps) = reclassify sort_by_rtt o (map overlay_peer ps)
  take_notice o (left id) = o

  abbrev pub take_notices : Overlay → List (Notice C) → Overlay
  take_notices o [] = o
  take_notices o (n ∷ ns) = take_notices (take_notice o n) ns

  unfoldable pub mesh_event : Mesh V C → Event → Mesh V C
  mesh_event s e =
      let (m, notices) = handle_event sv s.membership e in
      record { membership = m; overlay = take_notices s.overlay notices }

  unfoldable pub mesh_run : Mesh V C → List Event → Mesh V C
  mesh_run s [] = s
  mesh_run s (e ∷ es) = mesh_run (mesh_event s e) es

  -- Join's call of SetOnChange, which does not call the callback.
  abbrev pub wire_overlay : Mesh V C → Mesh V C
  wire_overlay s = record s { membership = set_on_change sv s.membership }
