-- ===== src/Overlay/Counting.antt =====
-- Counting the flags that the two phases of the peer selection set (overlay/overlay.go).
use gossip_mesh.Base.{
  ℕ, zero, suc, ◌+◌, ◌-◌, ◌≤◌, ◌≡◌, refl, ap, arith, Bool, true, false, some, List, [], ◌∷◌, length,
  get_elem?, replicate, set, if◌then◌else◌, min,
}
use gossip_mesh.Overlay.{PeerInfo, fill_slots, chosen_of, mark_first, classify}

pub count_true : List Bool → ℕ
count_true [] = 0
count_true (b ∷ bs) = if b then suc (count_true bs) else count_true bs

pub count_true-le : (bs : List Bool) → count_true bs ≤ length bs
unfolding count_true
count_true-le [] = omega arith
count_true-le (b ∷ bs) = ground (arith, count_true-le bs)

pub count_true-replicate : (n : ℕ) → count_true (replicate n false) ≡ 0
unfolding count_true
count_true-replicate zero = refl
count_true-replicate (suc n) = count_true-replicate n

pub count_true-set :
    (bs : List Bool) (j : ℕ)
    → get_elem? bs j ≡ some false
    → count_true (set bs j true) ≡ suc (count_true bs)
unfolding count_true
count_true-set [] j h = cc
count_true-set (b ∷ bs) zero h = ground arith
count_true-set (b ∷ bs) (suc j) h = ground (arith, count_true-set bs j)

-- The filling loop sets as many flags as the budget has left, if there are so many.
pub count_true-fill_slots :
    (budget count : ℕ) (bs : List Bool)
    → count_true (fill_slots budget count bs)
      ≡ count_true bs + min (budget - count) (length bs - count_true bs)
unfolding fill_slots count_true
count_true-fill_slots budget count [] = omega arith
count_true-fill_slots budget count (true ∷ bs) =
    ground (arith, count_true-fill_slots budget count bs, count_true-le bs)
count_true-fill_slots budget count (false ∷ bs) =
    ground (arith, count_true-fill_slots budget (count + 1) bs, count_true-le bs)

pub length-fill_slots :
    (budget count : ℕ) (bs : List Bool) → length (fill_slots budget count bs) ≡ length bs
unfolding fill_slots
length-fill_slots budget count [] = refl
length-fill_slots budget count (b ∷ bs) =
    ground (arith, length-fill_slots budget (if b then count else count + 1) bs)

-- What was set stays set.
pub fill_slots_keeps :
    (budget count : ℕ) (bs : List Bool) (j : ℕ)
    → get_elem? bs j ≡ some true
    → get_elem? (fill_slots budget count bs) j ≡ some true
unfolding fill_slots
fill_slots_keeps budget count [] j h = h
fill_slots_keeps budget count (b ∷ bs) zero h = ground arith
fill_slots_keeps budget count (b ∷ bs) (suc j) h =
    ground (arith, fill_slots_keeps budget (if b then count else count + 1) bs j h)

pub count_true-mark_first : (k n : ℕ) → count_true (mark_first k (replicate n false)) ≡ min k n
unfolding mark_first count_true
count_true-mark_first zero n = omega (arith, count_true-replicate n)
count_true-mark_first (suc k) zero = omega arith
count_true-mark_first (suc k) (suc n) = omega (arith, count_true-mark_first k n)

pub length-mark_first : (k : ℕ) (bs : List Bool) → length (mark_first k bs) ≡ length bs
unfolding mark_first
length-mark_first zero bs = refl
length-mark_first (suc k) [] = refl
length-mark_first (suc k) (b ∷ bs) = ap suc (length-mark_first k bs)

pub length-chosen_of {ℓ} :
    {A : Type ℓ} (bs : List Bool) (xs : List A)
    → length bs ≡ length xs
    → length (chosen_of bs xs) ≡ count_true bs
unfolding chosen_of count_true
length-chosen_of [] xs h = refl
length-chosen_of (b ∷ bs) [] h = absurd (omega arith)
length-chosen_of (true ∷ bs) (x ∷ xs) h = ap suc (length-chosen_of bs xs (omega arith))
length-chosen_of (false ∷ bs) (x ∷ xs) h = length-chosen_of bs xs (omega arith)

pub length-classify :
    (bs : List Bool) (ps : List PeerInfo)
    → length bs ≡ length ps
    → (length (classify true bs ps) ≡ count_true bs)
      × (length (classify false bs ps) + count_true bs ≡ length ps)
unfolding classify count_true
length-classify [] [] h = (refl, omega arith)
length-classify [] (p ∷ ps) h = absurd (omega arith)
length-classify (b ∷ bs) [] h = absurd (omega arith)
length-classify (true ∷ bs) (p ∷ ps) h =
    omega (arith, (length-classify bs ps (omega arith)).0, (length-classify bs ps (omega arith)).1)
length-classify (false ∷ bs) (p ∷ ps) h =
    omega (arith, (length-classify bs ps (omega arith)).0, (length-classify bs ps (omega arith)).1)
