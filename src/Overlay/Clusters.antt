-- ===== src/Overlay/Clusters.antt =====
-- findRTTClusters (overlay/overlay.go): the clusters split the indices at the large gaps.
use gossip_mesh.Base.{
  ℕ, zero, suc, ◌+◌, ◌-◌, ◌<◌, ◌≤◌, ◌≡◌, refl, sym, ◌∙◌, arith, some, List, [], ◌∷◌, ◌++◌, length,
  get_elem?, ltb, Bool-cases, inl, inr, subst,
}
use mathlib.Core.List.{append_assoc}
use gossip_mesh.Overlay.{PeerInfo, rtt_gap_threshold, cluster_loop, find_rtt_clusters, first_of}

-- The indices of all clusters, in order, are those of the peers.
pub flat : List (List ℕ) → List ℕ
flat [] = []
flat (c ∷ cs) = c ++ flat cs

pub count_from : ℕ → ℕ → List ℕ
count_from i zero = []
count_from i (suc n) = i ∷ count_from (i + 1) n

flat-cluster_loop :
    (i previous : ℕ) (current : List ℕ) (ps : List PeerInfo)
    → flat (cluster_loop i previous current ps) ≡ current ++ count_from i (length ps)
unfolding flat cluster_loop count_from
flat-cluster_loop i previous current [] = refl
flat-cluster_loop i previous current (p ∷ ps) =
    elim (Bool-cases (ltb rtt_gap_threshold (p.rtt - previous))) [
      | inl e ↦ rw (e, cluster_loop) (rw (flat-cluster_loop (i + 1) p.rtt (i ∷ []) ps))
      | inr e ↦
          rw (e, cluster_loop)
            (rw (flat-cluster_loop (i + 1) p.rtt (current ++ i ∷ []) ps)
              (append_assoc current (i ∷ []) _))
    ]

pub flat-find_rtt_clusters :
    (ps : List PeerInfo) → flat (find_rtt_clusters ps) ≡ count_from 0 (length ps)
unfolding find_rtt_clusters count_from
flat-find_rtt_clusters [] = unfold flat in refl
flat-find_rtt_clusters (p ∷ ps) = flat-cluster_loop 1 p.rtt (0 ∷ []) ps

-- Every cluster has a first index, below `n`, and these increase from `lo` on.
abbrev pub Starts : ℕ → ℕ → List (List ℕ) → Type 0
Starts lo n [] = Unit
Starts lo n (c ∷ cs) = (j : ℕ) × (get_elem? c 0 ≡ some j) × (lo ≤ j) × (j < n) × Starts (suc j) n cs

cluster_loop-Starts :
    (i previous j : ℕ) (current : List ℕ) (ps : List PeerInfo) (lo : ℕ)
    → get_elem? current 0 ≡ some j
    → lo ≤ j
    → j < i
    → Starts lo (i + length ps) (cluster_loop i previous current ps)
unfolding cluster_loop
cluster_loop-Starts i previous j current [] lo h a b = (j, h, a, omega arith, tt)
cluster_loop-Starts i previous j current (p ∷ ps) lo h a b =
    elim (Bool-cases (ltb rtt_gap_threshold (p.rtt - previous))) [
      | inl e ↦
          rw (e, cluster_loop)
            (
              j,
              h,
              a,
              omega arith,
              moved _ _ (
                  cluster_loop-Starts (i + 1) p.rtt i (i ∷ []) ps (suc j) refl (omega arith)
                    (omega arith)),
            )
      | inr e ↦
          rw (e, cluster_loop)
            (moved _ _ (
              cluster_loop-Starts (i + 1) p.rtt j (current ++ i ∷ []) ps lo (head-append current h)
                a (omega arith)))
    ]
  where
    moved :
        (lo' : ℕ) (cs : List (List ℕ))
        → Starts lo' (i + 1 + length ps) cs
        → Starts lo' (i + suc (length ps)) cs
    moved lo' cs s = subst (λ n. Starts lo' n cs) (omega arith) s

    head-append : (c : List ℕ) → get_elem? c 0 ≡ some j → get_elem? (c ++ i ∷ []) 0 ≡ some j
    head-append [] e = cc
    head-append (x ∷ xs) e = e

pub find_rtt_clusters-Starts : (ps : List PeerInfo) → Starts 0 (length ps) (find_rtt_clusters ps)
unfolding find_rtt_clusters
find_rtt_clusters-Starts [] = tt
find_rtt_clusters-Starts (p ∷ ps) =
    subst (λ n. Starts 0 n (cluster_loop 1 p.rtt (0 ∷ []) ps)) (omega arith)
      (cluster_loop-Starts 1 p.rtt 0 (0 ∷ []) ps 0 refl (omega arith) (omega arith))

pub first_of-Starts :
    (lo n : ℕ) (cs : List (List ℕ)) (k : ℕ)
    → Starts lo n cs
    → k < length cs
    → (j : ℕ) × (first_of cs k ≡ some j) × (lo ≤ j) × (j < n)
unfolding first_of
first_of-Starts lo n [] k s h = absurd (omega arith)
first_of-Starts lo n (c ∷ cs) zero (j, e, a, b, rest) h = (j, e, a, b)
first_of-Starts lo n (c ∷ cs) (suc k) (j, e, a, b, rest) h =
    let (j', e', a', b') = first_of-Starts (suc j) n cs k rest (omega arith) in
    (j', e', omega arith, b')

pub first_of-increases :
    (lo n : ℕ) (cs : List (List ℕ)) (k k' j j' : ℕ)
    → Starts lo n cs
    → k < k'
    → k' < length cs
    → first_of cs k ≡ some j
    → first_of cs k' ≡ some j'
    → j < j'
unfolding first_of
first_of-increases lo n [] k k' j j' s lt h e e' = absurd (omega arith)
first_of-increases lo n (c ∷ cs) zero zero j j' s lt h e e' = absurd (omega arith)
first_of-increases lo n (c ∷ cs) (suc k) zero j j' s lt h e e' = absurd (omega arith)
first_of-increases lo n (c ∷ cs) zero (suc k') j j' (i, ei, a, b, rest) lt h e e' =
    let (x, ex, ax, bx) = first_of-Starts (suc i) n cs k' rest (omega arith) in
    let same : some x ≡ some j' = sym ex ∙ e' in
    let here : some i ≡ some j = sym ei ∙ e in ground arith
first_of-increases lo n (c ∷ cs) (suc k) (suc k') j j' (i, ei, a, b, rest) lt h e e' =
    first_of-increases (suc i) n cs k k' j j' rest (omega arith) (omega arith) e e'
