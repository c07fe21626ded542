-- ===== src/Overlay.antt =====
-- overlay/overlay.go: which peers get a message at once and which get it in batches. Round trip times
-- are natural numbers of nanoseconds; a difference of two is used only where it is compared with
-- numbers that are not negative, so that a difference below zero may be zero. sort.Slice, whose order
-- of equal elements is open, is a parameter.
pub mod Clusters
pub mod Counting
pub mod Selection
pub mod Reclassify
pub mod Budget
mod Examples
use Prim.Native.String.{String}
use text.Mathlib.Text.{◌==◌ as str_eq}
use gossip_mesh.Base.{
  ℕ, zero, suc, ◌+◌, ◌-◌, ◌*◌, ◌/◌, ◌<◌, ◌≤◌, ◌≡◌, Bool, true, false, not, ◌&&◌, Option, none, some,
  List, [], ◌∷◌, ◌++◌, length, get_elem?, take, replicate, set, keep_if, ltb, leb, ◌==◌,
  if◌then◌else◌, min,
}
use gossip_mesh.Base.Int.{ℤ, or_default}

pub record OverlayConfig : Type 0 where
  pub min_eager_peers : ℤ
  pub max_eager_peers : ℤ
  pub min_lazy_peers : ℤ
  pub max_lazy_peers : ℤ

-- The configuration after its defaults are filled in: every field is positive.
pub record Limits : Type 0 where
  pub min_eager : ℕ
  pub max_eager : ℕ
  pub min_lazy : ℕ
  pub max_lazy : ℕ

pub with_defaults : OverlayConfig → Limits
with_defaults c = record {
  min_eager = or_default c.min_eager_peers 4;
  max_eager = or_default c.max_eager_peers 8;
  min_lazy = or_default c.min_lazy_peers 2;
  max_lazy = or_default c.max_lazy_peers 6;
}

pub record PeerInfo : Type 0 where
  pub node_id : String
  pub addr : String
  pub rtt : ℕ

pub record OverlayPeer : Type 0 where
  pub node_id : String
  pub addr : String
  pub rtt : ℕ
  pub is_eager : Bool

pub record Overlay : Type 0 where
  pub cfg : Limits
  pub self : String
  pub eager_peers : List OverlayPeer
  pub lazy_peers : List OverlayPeer

pub new : String → OverlayConfig → Overlay
new self c = record { cfg = with_defaults c; self = self; eager_peers = []; lazy_peers = [] }

-- 5 ms.
abbrev pub rtt_gap_threshold : ℕ
rtt_gap_threshold = 5000000

-- The loop of findRTTClusters from index `i` on, with the last cluster still open.
pub cluster_loop : ℕ → ℕ → List ℕ → List PeerInfo → List (List ℕ)
cluster_loop i previous current [] = current ∷ []
cluster_loop i previous current (p ∷ ps) = elim (ltb rtt_gap_threshold (p.rtt - previous)) [
  | true ↦ current ∷ cluster_loop (i + 1) p.rtt (i ∷ []) ps
  | false ↦ cluster_loop (i + 1) p.rtt (current ++ i ∷ []) ps
]

pub find_rtt_clusters : List PeerInfo → List (List ℕ)
unfolding cluster_loop
find_rtt_clusters [] = []
find_rtt_clusters (p ∷ ps) = cluster_loop 1 p.rtt (0 ∷ []) ps

abbrev pub rtt_at : List PeerInfo → ℕ → ℕ
rtt_at ps i = elim (get_elem? ps i) [ none ↦ 0 | some p ↦ p.rtt ]

-- The loop of findRTTGap over `rounds` indices from `i` on: the largest gap and its index.
pub gap_loop : ℕ → ℕ → List PeerInfo → ℕ → ℕ → ℕ × ℕ
gap_loop zero i ps max_gap gap_idx = (max_gap, gap_idx)
gap_loop (suc rounds) i ps max_gap gap_idx =
    let gap : ℕ = rtt_at ps i - rtt_at ps (i - 1) in
    let larger : Bool = ltb max_gap gap in
    gap_loop rounds (i + 1) ps (if larger then gap else max_gap) (if larger then i else gap_idx)

pub find_rtt_gap : Limits → List PeerInfo → ℕ
unfolding gap_loop
find_rtt_gap l ps =
    let n : ℕ = length ps in
    let lo : ℕ = if ltb l.min_eager 1 then 1 else l.min_eager in
    let hi : ℕ = n - l.min_lazy in
    let (max_gap, gap_idx) = gap_loop (hi - lo) lo ps 0 l.min_eager in
    if leb n (l.min_eager + l.min_lazy)
    then min l.min_eager n
    else if ltb max_gap rtt_gap_threshold
    then (if leb n l.max_eager then n else l.max_eager)
    else gap_idx

-- `clusters[k][0]`, which exists for every cluster.
pub first_of : List (List ℕ) → ℕ → Option ℕ
first_of clusters k = elim (get_elem? clusters k) [
  | none ↦ none
  | some cluster ↦ get_elem? cluster 0
]

-- One slot for a cluster: `chosen[clusters[i * len(clusters) / reserved][0]] = true`.
pub reserve_one : List (List ℕ) → ℕ → ℕ → List Bool → List Bool
reserve_one clusters reserved i chosen = elim (first_of clusters (i * length clusters / reserved)) [
  | none ↦ chosen
  | some j ↦ set chosen j true
]

-- The loop over the `rounds` slots from number `i` on.
pub reserve_slots : List (List ℕ) → ℕ → ℕ → ℕ → List Bool → List Bool
reserve_slots clusters reserved zero i chosen = chosen
reserve_slots clusters reserved (suc rounds) i chosen =
    reserve_slots clusters reserved rounds (i + 1) (reserve_one clusters reserved i chosen)

-- The loop that fills the budget by lowest round trip time, with `count` chosen before.
pub fill_slots : ℕ → ℕ → List Bool → List Bool
fill_slots budget count [] = []
fill_slots budget count (b ∷ bs) =
    let rest : List Bool = fill_slots budget (if b then count else count + 1) bs in
    if leb budget count then b ∷ bs else true ∷ rest

-- The two phases that selectDiversePeers and selectEager share: a slot for each cluster, or evenly
-- spread over the clusters if they are too many, and then the nearest peers.
pub spread : List (List ℕ) → ℕ → ℕ → List Bool
unfolding reserve_slots fill_slots
spread clusters budget n =
    let reserved : ℕ = if ltb (length clusters) budget then length clusters else budget in
    fill_slots budget reserved (reserve_slots clusters reserved reserved 0 (replicate n false))

-- The elements whose flag is set.
pub chosen_of {ℓ} : {A : Type ℓ} → List Bool → List A → List A
chosen_of [] xs = []
chosen_of (b ∷ bs) [] = []
chosen_of (b ∷ bs) (x ∷ xs) = if b then x ∷ chosen_of bs xs else chosen_of bs xs

unfoldable pub select_diverse_peers : List PeerInfo → ℕ → List PeerInfo
select_diverse_peers ps total_max =
    let clusters : List (List ℕ) = find_rtt_clusters ps in
    if leb (length clusters) 1
    then take total_max ps
    else chosen_of (spread clusters total_max (length ps)) ps

-- How selectEager bounds the gap's index for `n` peers.
pub bounded_split : Limits → ℕ → ℕ → ℕ
bounded_split l n gap =
    let low : ℕ = if ltb gap l.min_eager then l.min_eager else gap in
    let high : ℕ = if ltb l.max_eager low then l.max_eager else low in
    let capped : ℕ = if ltb n high then n else high in
    if ltb (n - capped) l.min_lazy && ltb (l.min_eager + l.min_lazy) n
    then n - l.min_lazy
    else capped

-- The number of eager peers where all are in one cluster.
pub eager_split : Limits → List PeerInfo → ℕ
eager_split l ps = bounded_split l (length ps) (find_rtt_gap l ps)

-- The first `k` of the flags are set.
pub mark_first : ℕ → List Bool → List Bool
mark_first zero bs = bs
mark_first (suc k) [] = []
mark_first (suc k) (b ∷ bs) = true ∷ mark_first k bs

abbrev pub eager_budget : Limits → ℕ → ℕ
eager_budget l n = if ltb (n - l.min_lazy) l.max_eager then n - l.min_lazy else l.max_eager

pub select_eager : Limits → List PeerInfo → List Bool
unfolding mark_first
select_eager l ps =
    let clusters : List (List ℕ) = find_rtt_clusters ps in
    if leb (length clusters) 1
    then mark_first (eager_split l ps) (replicate (length ps) false)
    else spread clusters (eager_budget l (length ps)) (length ps)

abbrev pub classified : Bool → PeerInfo → OverlayPeer
classified e p = record { node_id = p.node_id; addr = p.addr; rtt = p.rtt; is_eager = e }

-- The peers whose flag is `want`, in order.
pub classify : Bool → List Bool → List PeerInfo → List OverlayPeer
classify want [] ps = []
classify want (b ∷ bs) [] = []
classify want (b ∷ bs) (p ∷ ps) =
    if (if want then b else not b)
    then classified b p ∷ classify want bs ps
    else classify want bs ps

abbrev pub without_self : String → List PeerInfo → List PeerInfo
without_self self = keep_if (λ p. not (str_eq p.node_id self))

-- The peers that are classified: sorted, and cut to the total budget.
pub capped_peers : (List PeerInfo → List PeerInfo) → Limits → List PeerInfo → List PeerInfo
capped_peers sort_by_rtt l ps =
    let sorted : List PeerInfo = sort_by_rtt ps in
    let total_max : ℕ = l.max_eager + l.max_lazy in
    if ltb total_max (length sorted) then select_diverse_peers sorted total_max else sorted

unfoldable pub reclassify : (List PeerInfo → List PeerInfo) → Overlay → List PeerInfo → Overlay
reclassify sort_by_rtt o ps =
    let filtered : List PeerInfo = without_self o.self ps in
    let chosen : List PeerInfo = capped_peers sort_by_rtt o.cfg filtered in
    let is_eager : List Bool = select_eager o.cfg chosen in
    if length filtered == 0 then record o { eager_peers = []; lazy_peers = [] } else record o {
      eager_peers = classify true is_eager chosen;
      lazy_peers = classify false is_eager chosen;
    }

abbrev pub all_peers : Overlay → List OverlayPeer
all_peers o = o.eager_peers ++ o.lazy_peers

pub random_peers : Overlay → ℕ → List OverlayPeer
random_peers o n = if leb (length (all_peers o)) n then all_peers o else take n (all_peers o)

unfoldable pub peer_count : Overlay → ℕ
peer_count o = length o.eager_peers + length o.lazy_peers
