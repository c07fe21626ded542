-- ===== src/Overlay/Reclassify.antt =====
-- selectEager, selectDiversePeers and Reclassify (overlay/overlay.go).
use gossip_mesh.Base.{
  ℕ, zero, suc, ◌+◌, ◌-◌, ◌<◌, ◌≤◌, ◌≡◌, ap, ◌∙◌, arith, Bool, true, false, not, some, List, [],
  ◌∷◌, length, length-take, length-replicate, get_elem?, replicate, ltb, leb, if◌then◌else◌, min,
  Bool-cases, inl, inr, All, All-take, Any,
}
use gossip_mesh.Overlay.{
  PeerInfo, OverlayPeer, Limits, find_rtt_clusters, find_rtt_gap, first_of, spread, bounded_split,
  eager_split, eager_budget, select_eager, select_diverse_peers, chosen_of, mark_first, classify,
  classified, capped_peers,
}
use gossip_mesh.Overlay.Clusters.{first_of-Starts, find_rtt_clusters-Starts}
use gossip_mesh.Overlay.Counting.{
  count_true, count_true-mark_first, length-mark_first, length-chosen_of,
}
use gossip_mesh.Overlay.Selection.{length-spread, count_true-spread, spread_covers}

bounded_split_bounds :
    (l : Limits) (n gap : ℕ)
    → (bounded_split l n gap ≤ n)
      × (bounded_split l n gap ≤ l.max_eager)
      × (l.min_eager + l.min_lazy < n → l.min_lazy + bounded_split l n gap ≤ n)
unfolding bounded_split
bounded_split_bounds l n gap = (ground arith, ground arith, λ h. ground arith)

pub length-select_eager : (l : Limits) (ps : List PeerInfo) → length (select_eager l ps) ≡ length ps
unfolding select_eager
length-select_eager l ps = elim (Bool-cases (leb (length (find_rtt_clusters ps)) 1)) [
  | inl e ↦ rw e (
      length-mark_first (eager_split l ps) (replicate (length ps) false)
      ∙ length-replicate (length ps) false)
  | inr e ↦ rw e (
      length-spread (find_rtt_clusters ps) (eager_budget l (length ps)) (length ps)
        (find_rtt_clusters-Starts ps))
]

-- The number of eager peers, by the number of clusters.
pub count_true-select_eager :
    (l : Limits) (ps : List PeerInfo)
    → (length (find_rtt_clusters ps) ≤ 1 → count_true (select_eager l ps) ≡ eager_split l ps)
      × (1 < length (find_rtt_clusters ps)
          → count_true (select_eager l ps) ≡ min l.max_eager (length ps - l.min_lazy))
      × (count_true (select_eager l ps) ≤ l.max_eager)
      × (l.min_eager + l.min_lazy < length ps
          → l.min_lazy + count_true (select_eager l ps) ≤ length ps)
unfolding select_eager eager_split
count_true-select_eager l ps =
    let n = length ps in
    let clusters = find_rtt_clusters ps in
    let gap = find_rtt_gap l ps in
    let many : count_true (spread clusters (eager_budget l n) n) ≡ min (eager_budget l n) n =
      count_true-spread clusters (eager_budget l n) n (find_rtt_clusters-Starts ps) in
    let one : count_true (mark_first (bounded_split l n gap) (replicate n false))
        ≡ min (bounded_split l n gap) n =
      count_true-mark_first (bounded_split l n gap) n in
    elim (Bool-cases (leb (length clusters) 1)) [
      | inl e ↦
          let few : length clusters ≤ 1 = ground arith in
          rw e (
            λ _. omega (arith, one, bounded_split_bounds l n gap),
            λ h. absurd (omega (arith, h, few)),
            omega (arith, one, bounded_split_bounds l n gap),
            λ h. omega (arith, one, (bounded_split_bounds l n gap).2 h),
          )
      | inr e ↦
          let more : 1 < length clusters = ground arith in
          rw e (
            λ h. absurd (omega (arith, h, more)),
            λ _. rw many (ground arith),
            rw many (ground arith),
            λ h. rw many (ground arith),
          )
    ]

first_in :
    (clusters : List (List ℕ)) (k : ℕ) (c : List ℕ) (j : ℕ) (P : ℕ → Type 0)
    → get_elem? clusters k ≡ some c
    → first_of clusters k ≡ some j
    → P j
    → Any P c
unfolding first_of
first_in clusters k [] j P e f p = cc (rw (e, first_of) at f)
first_in clusters k (x ∷ xs) j P e f p =
    let same : some x ≡ some j = rw (e, first_of) at f in
    let head : x ≡ j = ground arith in inl (rw head p)

get_elem?-lt {ℓ} :
    {A : Type ℓ} (xs : List A) (k : ℕ) (a : A) → get_elem? xs k ≡ some a → k < length xs
get_elem?-lt [] k a h = cc
get_elem?-lt (x ∷ xs) zero a h = omega arith
get_elem?-lt (x ∷ xs) (suc k) a h = omega (arith, get_elem?-lt xs k a h)

-- With several clusters, no more of them than the eager limit, and the minimum of lazy peers left
-- beside one peer for each cluster, every cluster has an eager peer.
pub select_eager_covers :
    (l : Limits) (ps : List PeerInfo) (k : ℕ) (cluster : List ℕ)
    → 1 < length (find_rtt_clusters ps)
    → length (find_rtt_clusters ps) ≤ l.max_eager
    → length (find_rtt_clusters ps) + l.min_lazy ≤ length ps
    → get_elem? (find_rtt_clusters ps) k ≡ some cluster
    → Any (λ j. get_elem? (select_eager l ps) j ≡ some true) cluster
unfolding select_eager
select_eager_covers l ps k cluster several room lazy_room e =
    let clusters = find_rtt_clusters ps in
    let starts = find_rtt_clusters-Starts ps in
    let inside = get_elem?-lt clusters k cluster e in
    let (j, f, _, _) = first_of-Starts 0 (length ps) clusters k starts inside in
    let budget : length clusters ≤ eager_budget l (length ps) = ground arith in
    let several' : leb (length clusters) 1 ≡ false = ground arith in
    rw several' (
      first_in clusters k cluster j _ e f (
        spread_covers clusters (eager_budget l (length ps)) (length ps) starts k j budget inside f))

-- How many peers become eager: within one cluster the bounded split, and over several clusters as many
-- as the eager limit and the lazy minimum leave; in both cases no more than the limit.
pub select_eager_count :
    (l : Limits) (ps : List PeerInfo)
    → (count_true (select_eager l ps) ≡ (
        if leb (length (find_rtt_clusters ps)) 1
        then eager_split l ps
        else min l.max_eager (length ps - l.min_lazy)))
      × (count_true (select_eager l ps) ≤ l.max_eager)
select_eager_count l ps =
    let (one, many, limit, _) = count_true-select_eager l ps in (ground (arith, one, many), limit)

-- With several clusters and no more peers than the minimum of lazy ones, no peer is eager.
pub select_eager_none :
    (l : Limits) (ps : List PeerInfo)
    → 1 < length (find_rtt_clusters ps)
    → length ps ≤ l.min_lazy
    → count_true (select_eager l ps) ≡ 0
select_eager_none l ps several few = omega (arith, (count_true-select_eager l ps).1 several, few)

length-select_diverse_peers :
    (ps : List PeerInfo) (total_max : ℕ)
    → total_max ≤ length ps
    → length (select_diverse_peers ps total_max) ≡ total_max
unfolding select_diverse_peers
length-select_diverse_peers ps total_max h =
    let clusters = find_rtt_clusters ps in
    let starts = find_rtt_clusters-Starts ps in
    elim (Bool-cases (leb (length clusters) 1)) [
      | inl e ↦ rw e (omega (arith, length-take total_max ps))
      | inr e ↦ rw e (
          length-chosen_of (spread clusters total_max (length ps)) ps
            (length-spread clusters total_max (length ps) starts)
          ∙ omega (arith, count_true-spread clusters total_max (length ps) starts, h))
    ]

All-chosen_of :
    (P : PeerInfo → Type 0) (bs : List Bool) (ps : List PeerInfo)
    → All P ps
    → All P (chosen_of bs ps)
unfolding chosen_of
All-chosen_of P [] ps a = tt
All-chosen_of P (b ∷ bs) [] a = tt
All-chosen_of P (true ∷ bs) (p ∷ ps) a = (a.0, All-chosen_of P bs ps a.1)
All-chosen_of P (false ∷ bs) (p ∷ ps) a = All-chosen_of P bs ps a.1

All-select_diverse_peers :
    (P : PeerInfo → Type 0) (ps : List PeerInfo) (total_max : ℕ)
    → All P ps
    → All P (select_diverse_peers ps total_max)
unfolding select_diverse_peers
All-select_diverse_peers P ps total_max a =
    elim (Bool-cases (leb (length (find_rtt_clusters ps)) 1)) [
      | inl e ↦ rw e (All-take P total_max ps a)
      | inr e ↦ rw e (All-chosen_of P (spread (find_rtt_clusters ps) total_max (length ps)) ps a)
    ]

-- A classified peer comes from a peer that was given, with its address and round trip time.
abbrev pub FromPeer : (PeerInfo → Type 0) → Bool → OverlayPeer → Type 0
FromPeer P want q = (q.is_eager ≡ want) × ((p : PeerInfo) × P p × (q ≡ classified want p))

pub All-classify :
    (P : PeerInfo → Type 0) (want : Bool) (bs : List Bool) (ps : List PeerInfo)
    → All P ps
    → All (FromPeer P want) (classify want bs ps)
unfolding classify
All-classify P want [] ps a = tt
All-classify P want (b ∷ bs) [] a = tt
All-classify P want (b ∷ bs) (p ∷ ps) a = elim (Bool-cases (if want then b else not b)) [
  | inl e ↦ rw e (
    (eager_is want b e, (p, a.0, ap (λ w. classified w p) (eager_is want b e))),
    All-classify P want bs ps a.1,
  )
  | inr e ↦ rw e (All-classify P want bs ps a.1)
]
  where
    eager_is : (want b : Bool) → (if want then b else not b) ≡ true → b ≡ want
    eager_is want b h = ground arith

-- What Reclassify relies on of the sort: the elements stay, and so does their number.
pub record Sorts (sort_by_rtt : List PeerInfo → List PeerInfo) : Type 1 where
  pub same_length : (ps : List PeerInfo) → length (sort_by_rtt ps) ≡ length ps
  pub same_elements :
      (P : PeerInfo → Type 0) (ps : List PeerInfo) → All P ps → All P (sort_by_rtt ps)

module _ (sort_by_rtt : List PeerInfo → List PeerInfo) (sorts : Sorts sort_by_rtt) where
  pub length-capped_peers :
      (l : Limits) (ps : List PeerInfo)
      → length (capped_peers sort_by_rtt l ps) ≡ min (length ps) (l.max_eager + l.max_lazy)
  unfolding capped_peers
  length-capped_peers l ps =
      elim (Bool-cases (ltb (l.max_eager + l.max_lazy) (length (sort_by_rtt ps)))) [
        | inl e ↦
            let over : l.max_eager + l.max_lazy < length (sort_by_rtt ps) = ground arith in
            rw e (
              omega (
                arith,
                length-select_diverse_peers (sort_by_rtt ps) (l.max_eager + l.max_lazy)
                    (omega arith),
                sorts.same_length ps,
                over,
              ))
        | inr e ↦
            let under : length (sort_by_rtt ps) ≤ l.max_eager + l.max_lazy = ground arith in
            rw e (omega (arith, sorts.same_length ps, under))
      ]

  pub All-capped_peers :
      (P : PeerInfo → Type 0) (l : Limits) (ps : List PeerInfo)
      → All P ps
      → All P (capped_peers sort_by_rtt l ps)
  unfolding capped_peers
  All-capped_peers P l ps a =
      elim (Bool-cases (ltb (l.max_eager + l.max_lazy) (length (sort_by_rtt ps)))) [
        | inl e ↦ rw e (
            All-select_diverse_peers P (sort_by_rtt ps) (l.max_eager + l.max_lazy)
              (sorts.same_elements P ps a))
        | inr e ↦ rw e (sorts.same_elements P ps a)
      ]
