-- ===== src/Overlay/Selection.antt =====
-- The slots reserved for the clusters, and the two-phase selection (overlay/overlay.go).
use gossip_mesh.Base.{
  ℕ, zero, suc, ◌+◌, ◌*◌, ◌/◌, ◌<◌, ◌≤◌, ◌≡◌, ◌≢◌, refl, sym, ap, ◌∙◌, arith, Bool, true, false,
  Option, none, some, List, [], ◌∷◌, length, get_elem?, replicate, set, length-set,
  length-replicate, ltb, if◌then◌else◌, min,
}
use native.Mathlib.Nat.{le-div_iff_mul-le, div-lt_iff_lt-mul, mul-div_left, div-mul-le_self}
use native.Mathlib.Decide.{ℕ_discrete}
use gossip_mesh.Overlay.{first_of, reserve_one, reserve_slots, spread}
use gossip_mesh.Overlay.Clusters.{Starts, first_of-Starts, first_of-increases}
use gossip_mesh.Overlay.Counting.{
  count_true, count_true-set, count_true-replicate, count_true-fill_slots, length-fill_slots,
  fill_slots_keeps,
}

get_elem?-set_self :
    (bs : List Bool) (j : ℕ) → j < length bs → get_elem? (set bs j true) j ≡ some true
get_elem?-set_self [] j h = absurd (omega arith)
get_elem?-set_self (b ∷ bs) zero h = refl
get_elem?-set_self (b ∷ bs) (suc j) h = get_elem?-set_self bs j (omega arith)

get_elem?-set_ne : (bs : List Bool) (i j : ℕ) → i ≢ j → get_elem? (set bs i true) j ≡ get_elem? bs j
get_elem?-set_ne [] i j h = refl
get_elem?-set_ne (b ∷ bs) zero zero h = absurd (h refl)
get_elem?-set_ne (b ∷ bs) zero (suc j) h = refl
get_elem?-set_ne (b ∷ bs) (suc i) zero h = refl
get_elem?-set_ne (b ∷ bs) (suc i) (suc j) h = get_elem?-set_ne bs i j (λ e. h (ap suc e))

set_keeps :
    (bs : List Bool) (i j : ℕ)
    → get_elem? bs j ≡ some true
    → get_elem? (set bs i true) j ≡ some true
set_keeps [] i j h = h
set_keeps (b ∷ bs) zero zero h = refl
set_keeps (b ∷ bs) zero (suc j) h = h
set_keeps (b ∷ bs) (suc i) zero h = h
set_keeps (b ∷ bs) (suc i) (suc j) h = set_keeps bs i j h

get_elem?-replicate : (n j : ℕ) → j < n → get_elem? (replicate n false) j ≡ some false
get_elem?-replicate zero j h = absurd (omega arith)
get_elem?-replicate (suc n) zero h = refl
get_elem?-replicate (suc n) (suc j) h = get_elem?-replicate n j (omega arith)

-- Slots spread evenly over the clusters meet each cluster once at most.
slot_step : (i c r : ℕ) → 0 < r → r ≤ c → i * c / r < (i + 1) * c / r
slot_step i c r p h = (le-div_iff_mul-le p).1 (omega (arith, div-mul-le_self (i * c) r, h))

slot_lt : (i c r : ℕ) → i < r → r ≤ c → i * c / r < c
slot_lt i c r p h = (div-lt_iff_lt-mul (omega arith)).1 (grind arith)

slot_all : (i c : ℕ) → i < c → i * c / c ≡ i
slot_all i c h = mul-div_left i (omega arith)

-- The flags from `j` on are not set.
abbrev Clear : ℕ → List Bool → Type 0
Clear j bs = (k : ℕ) → j ≤ k → k < length bs → get_elem? bs k ≡ some false

module _ (clusters : List (List ℕ)) (n reserved : ℕ) (starts : Starts 0 n clusters)
    (fits : reserved ≤ length clusters) where
  abbrev slot : ℕ → ℕ
  slot i = i * length clusters / reserved

  slot_first : (i : ℕ) → i < reserved → (j : ℕ) × (first_of clusters (slot i) ≡ some j) × (j < n)
  slot_first i h =
      let (j, e, _, b) =
        first_of-Starts 0 n clusters (slot i) starts
          (slot_lt i (length clusters) reserved h fits) in
      (j, e, b)

  -- Each reserved slot sets a flag that was not set.
  count_true-reserve_slots :
      (rounds i : ℕ) (chosen : List Bool)
      → i + rounds ≤ reserved
      → length chosen ≡ n
      → (i < reserved → (j : ℕ) → first_of clusters (slot i) ≡ some j → Clear j chosen)
      → count_true (reserve_slots clusters reserved rounds i chosen) ≡ count_true chosen + rounds
  unfolding reserve_slots reserve_one
  count_true-reserve_slots zero i chosen h len clear = omega arith
  count_true-reserve_slots (suc rounds) i chosen h len clear =
      let (j, e, b) = slot_first i (omega arith) in
      let here : get_elem? chosen j ≡ some false =
        clear (omega arith) j e j (omega arith) (omega arith) in
      let next = set chosen j true in
      let ih : count_true (reserve_slots clusters reserved rounds (i + 1) next)
          ≡ count_true next + rounds =
        count_true-reserve_slots rounds (i + 1) next (omega arith) (length-set chosen j true ∙ len)
          (later j e) in
      rw (e, reserve_one) (omega (arith, ih, count_true-set chosen j here))
    where
      later :
          (j : ℕ)
          → first_of clusters (slot i) ≡ some j
          → i + 1 < reserved
          → (j' : ℕ) → first_of clusters (slot (i + 1)) ≡ some j'
          → Clear j' (set chosen j true)
      later j e more j' e' k a b =
          let up : slot i < slot (i + 1) =
            slot_step i (length clusters) reserved (omega arith) fits in
          let inside : slot (i + 1) < length clusters =
            slot_lt (i + 1) (length clusters) reserved more fits in
          let lt : j < j' =
            first_of-increases 0 n clusters (slot i) (slot (i + 1)) j j' starts up inside e e' in
          get_elem?-set_ne chosen j k (λ same. omega (arith, same, lt, a))
          ∙ clear (omega arith) j e k (omega (arith, lt, a))
              (omega (arith, b, length-set chosen j true))

  pub reserve_slots_keeps :
      (rounds i : ℕ) (chosen : List Bool) (j : ℕ)
      → get_elem? chosen j ≡ some true
      → get_elem? (reserve_slots clusters reserved rounds i chosen) j ≡ some true
  unfolding reserve_slots reserve_one
  reserve_slots_keeps zero i chosen j h = h
  reserve_slots_keeps (suc rounds) i chosen j h =
      reserve_slots_keeps rounds (i + 1) _ j (one (first_of clusters (slot i)) refl)
    where
      one :
          (o : Option ℕ)
          → first_of clusters (slot i) ≡ o
          → get_elem? (reserve_one clusters reserved i chosen) j ≡ some true
      one o e = rw (e, reserve_one) (kept o)
        where
          kept :
              (o : Option ℕ)
              → get_elem?
                  (elim o as (λ x. List Bool) [ none ↦ chosen | some j' ↦ set chosen j' true ])
                  j
                ≡ some true
          kept none = h
          kept (some j') = set_keeps chosen j' j h

  pub length-reserve_slots :
      (rounds i : ℕ) (chosen : List Bool)
      → length (reserve_slots clusters reserved rounds i chosen) ≡ length chosen
  unfolding reserve_slots reserve_one
  length-reserve_slots zero i chosen = refl
  length-reserve_slots (suc rounds) i chosen =
      length-reserve_slots rounds (i + 1) _ ∙ one (first_of clusters (slot i))
    where
      one :
          (o : Option ℕ)
          → length (elim o as (λ x. List Bool) [ none ↦ chosen | some j' ↦ set chosen j' true ])
            ≡ length chosen
      one none = refl
      one (some j') = length-set chosen j' true

  -- Every cluster that a slot falls on has its first peer chosen.
  reserve_slots_sets :
      (rounds i k j : ℕ) (chosen : List Bool)
      → i ≤ k
      → k < i + rounds
      → i + rounds ≤ reserved
      → length chosen ≡ n
      → first_of clusters (slot k) ≡ some j
      → get_elem? (reserve_slots clusters reserved rounds i chosen) j ≡ some true
  unfolding reserve_slots reserve_one
  reserve_slots_sets zero i k j chosen a b c len e = absurd (omega arith)
  reserve_slots_sets (suc rounds) i k j chosen a b c len e =
      let (j', e', below) = slot_first i (omega arith) in
      elim (ℕ_discrete i k) [
        | yes same ↦
            let here : first_of clusters (slot i) ≡ some j = rw same e in
            rw (here, reserve_one)
              (reserve_slots_keeps rounds (i + 1) (set chosen j true) j (
                get_elem?-set_self chosen j
                  (omega (arith, len, some-le j' j (sym e' ∙ here) below))))
        | no other ↦
            rw (e', reserve_one)
              (reserve_slots_sets rounds (i + 1) k j (set chosen j' true) (omega arith)
                (omega arith) (omega arith) (length-set chosen j' true ∙ len) e)
      ]
    where
      some-le : (x y : ℕ) → ◌≡◌ {A = Option ℕ} (some x) (some y) → x < n → y < n
      some-le x y p q = ground arith

Starts-length : (lo n : ℕ) (cs : List (List ℕ)) → lo ≤ n → Starts lo n cs → lo + length cs ≤ n
Starts-length lo n [] h s = omega arith
Starts-length lo n (c ∷ cs) h (j, e, a, b, rest) = omega (arith, Starts-length (suc j) n cs b rest)

module _ (clusters : List (List ℕ)) (budget n : ℕ) (starts : Starts 0 n clusters) where
  abbrev reserved : ℕ
  reserved = if ltb (length clusters) budget then length clusters else budget

  reserved_bounds :
      (reserved ≤ length clusters)
      × (reserved ≤ budget)
      × (length clusters ≤ budget → reserved ≡ length clusters)
  reserved_bounds = (ground arith, ground arith, λ h. ground arith)

  pub length-spread : length (spread clusters budget n) ≡ n
  unfolding spread
  length-spread =
      length-fill_slots budget reserved
        (reserve_slots clusters reserved reserved 0 (replicate n false))
      ∙ length-reserve_slots clusters n reserved starts reserved_bounds.0 reserved 0
          (replicate n false)
      ∙ length-replicate n false

  -- The budget is used up, as far as there are peers.
  pub count_true-spread : count_true (spread clusters budget n) ≡ min budget n
  unfolding spread
  count_true-spread =
      let marked = reserve_slots clusters reserved reserved 0 (replicate n false) in
      let len : length marked ≡ n =
        length-reserve_slots clusters n reserved starts reserved_bounds.0 reserved 0
          (replicate n false)
        ∙ length-replicate n false in
      let set_flags : count_true marked ≡ count_true (replicate n false) + reserved =
        count_true-reserve_slots clusters n reserved starts reserved_bounds.0 reserved 0
          (replicate n false) (omega arith) (length-replicate n false)
          (λ _ j e k a b. get_elem?-replicate n k (omega (arith, b, length-replicate n false))) in
      omega (
        arith,
        count_true-fill_slots budget reserved marked,
        len,
        set_flags,
        count_true-replicate n,
        Starts-length 0 n clusters (omega arith) starts,
        reserved_bounds.0,
        reserved_bounds.1,
      )

  -- With a slot for each cluster, every cluster's first peer is chosen.
  pub spread_covers :
      (k j : ℕ)
      → length clusters ≤ budget
      → k < length clusters
      → first_of clusters k ≡ some j
      → get_elem? (spread clusters budget n) j ≡ some true
  unfolding spread
  spread_covers k j room h e =
      let all : reserved ≡ length clusters = reserved_bounds.2 room in
      let at_slot : k * length clusters / reserved ≡ k = rw all (slot_all k (length clusters) h) in
      fill_slots_keeps budget reserved _ j (
        reserve_slots_sets clusters n reserved starts reserved_bounds.0 reserved 0 k j
          (replicate n false) (omega arith) (omega (arith, all, h)) (omega arith)
          (length-replicate n false) (rw at_slot e))
