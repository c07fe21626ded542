-- ===== src/Overlay/Examples.antt =====
-- Three peers in two clusters.
use gossip_mesh.Base.{
  ◌+◌, ◌≤◌, ◌≡◌, refl, ap, arith, true, some, List, [], ◌∷◌, Any, length, get_elem?, min,
}
use gossip_mesh.Overlay.{
  PeerInfo, Overlay, Limits, find_rtt_clusters, select_eager, without_self, reclassify, peer_count,
}
use gossip_mesh.Overlay.Reclassify.{Sorts, select_eager_covers}
use gossip_mesh.Overlay.Budget.{reclassify_counts}

-- Two peers nearby and one 40 ms away.
abbrev three_peers : List PeerInfo
three_peers =
    record { node_id = "b"; addr = "10.0.0.2:7000"; rtt = 1000000 }
    ∷ record { node_id = "c"; addr = "10.0.0.3:7000"; rtt = 2000000 }
    ∷ record { node_id = "d"; addr = "10.0.0.4:7000"; rtt = 40000000 }
    ∷ []

abbrev small_limits : Limits
small_limits = record { min_eager = 1; max_eager = 2; min_lazy = 1; max_lazy = 2 }

abbrev small_overlay : Overlay
small_overlay = record { cfg = small_limits; self = "a"; eager_peers = []; lazy_peers = [] }

-- The peers above are sorted, and this sort leaves them so.
abbrev keep_order : List PeerInfo → List PeerInfo
keep_order ps = ps

keep_order-Sorts : Sorts keep_order
keep_order-Sorts = record { same_length = λ ps. refl; same_elements = λ P ps a. a }

three_clusters : find_rtt_clusters three_peers ≡ (0 ∷ 1 ∷ []) ∷ (2 ∷ []) ∷ []
unfolding find_rtt_clusters
three_clusters = refl

two_clusters : length (find_rtt_clusters three_peers) ≡ 2
two_clusters = ap length three_clusters

select_eager_covers_example :
    Any (λ j. get_elem? (select_eager small_limits three_peers) j ≡ some true) (2 ∷ [])
select_eager_covers_example =
    select_eager_covers small_limits three_peers 1 (2 ∷ []) (omega (arith, two_clusters))
      (omega (arith, two_clusters)) (omega (arith, two_clusters))
      (ap (λ cs. get_elem? cs 1) three_clusters)

reclassify_counts_example :
    (peer_count (reclassify keep_order small_overlay three_peers)
      ≡ min (length (without_self "a" three_peers)) (2 + 2))
    × (length (reclassify keep_order small_overlay three_peers).eager_peers ≤ 2)
reclassify_counts_example = reclassify_counts keep_order keep_order-Sorts small_overlay three_peers

abbrev Close : PeerInfo → Type 0
Close p = p.rtt ≤ 40000000
