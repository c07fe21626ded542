-- ===== src/Mesh/Examples.antt =====
-- A node that hears of another one.
use gossip_mesh.Base.{ℕ, ◌≡◌, refl, true, false, List, []}
use gossip_mesh.Membership.Examples.{
  plain, no_members, no_members-IsTable, visits_plain, three_events,
}
use gossip_mesh.Overlay.{PeerInfo, peer_count}
use gossip_mesh.Overlay.Reclassify.{Sorts}
use gossip_mesh.Mesh.{Mesh, mesh_run}
use gossip_mesh.Mesh.Follows.{Follows, mesh_run-Follows}
use gossip_mesh.Mesh.Lifecycle.{Outcomes, nothing, join, leave, join_lem}

abbrev unsorted : List PeerInfo → List PeerInfo
unsorted ps = ps

abbrev unsorted_Sorts : Sorts unsorted
unsorted_Sorts = record { same_length = λ ps. refl; same_elements = λ P ps a. a }

abbrev alone : Mesh ℕ ℕ
alone = record {
  membership = no_members;
  overlay = record {
    cfg = record { min_eager = 1; max_eager = 2; min_lazy = 1; max_lazy = 2 };
    self = "a";
    eager_peers = [];
    lazy_peers = [];
  };
}

mesh_run-Follows_example : Follows plain unsorted (mesh_run plain unsorted alone three_events)
unfolding peer_count
mesh_run-Follows_example =
    mesh_run-Follows plain unsorted unsorted_Sorts visits_plain alone three_events refl
      no_members-IsTable (record { eager_current = tt; lazy_current = tt; full = refl })

abbrev transport_fails : Outcomes
transport_fails = record {
  vivaldi_client = true;
  tls_given = true;
  quic_transport = true;
  create = true;
  transport = false;
  discovery = true;
  leave_list = true;
  shutdown_list = true;
  shutdown_quic = true;
}

join_lem_example :
    let w = transport_fails in
    ((join w true).1 ≡ false → (join w true).0 ≡ nothing)
    × ((join w true).1 ≡ true
        → ((join w true).0 ≡ record {
          quic = true;
          list = true;
          transport = true;
          engine = false;
          extension = true;
          context = true;
        })
          × ((leave w (join w true).0).0 ≡ nothing))
join_lem_example = join_lem transport_fails true refl refl refl

abbrev leave_fails : Outcomes
leave_fails = record transport_fails { transport = true; leave_list = false }
