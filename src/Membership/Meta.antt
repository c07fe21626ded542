-- ===== src/Membership/Meta.antt =====
-- Concurrent callers of UpdateMeta (membership/membership.go): an atomic pointer to the metadata, and for each
-- caller the point of its load, compute and swap loop. A schedule says which caller makes the next atomic step.
use gossip_mesh.Base.{
  ℕ, suc, ◌+◌, ◌<◌, ◌≡◌, refl, sym, ap, ◌∙◌, arith, Bool, true, false, List, [], ◌∷◌, inl, inr,
  ◌==◌, if◌then◌else◌, Bool-cases, ==_iff,
}

-- The current pointer, what each pointer points to, and the next pointer that no one has.
pub record MetaCell (M : Type 0) : Type 0 where
  pub current : ℕ
  pub heap : ℕ → M
  pub next : ℕ

-- Before the load; with the pointer that was loaded and the one to the updated copy; swapped.
pub data UpdatePc : Type 0 where
  loading : UpdatePc
  computed : ℕ → ℕ → UpdatePc
  swapped : UpdatePc

-- The caller at this point makes its compare-and-swap, and it succeeds.
abbrev pub swaps : {M : Type 0} → MetaCell M → UpdatePc → Bool
swaps cell loading = false
swaps cell (computed old new) = cell.current == old
swaps cell swapped = false

-- The copy is a new one at each round, so that its pointer is not in use.
unfoldable pub update_step : {M : Type 0} → (M → M) → MetaCell M → UpdatePc → MetaCell M × UpdatePc
update_step fn cell loading = (
  record cell {
    heap = λ p. if p == cell.next then fn (cell.heap cell.current) else cell.heap p;
    next = cell.next + 1;
  },
  computed cell.current cell.next,
)
update_step fn cell (computed old new) =
    if cell.current == old then (record cell { current = new }, swapped) else (cell, loading)
update_step fn cell swapped = (cell, swapped)

-- The log has the callers whose swap has succeeded, the latest first.
pub record Updaters (M : Type 0) : Type 0 where
  pub cell : MetaCell M
  pub pcs : ℕ → UpdatePc
  pub log : List ℕ

module _ {M : Type 0} (fns : ℕ → M → M) where
  abbrev moved : Updaters M → ℕ → UpdatePc → Updaters M
  moved r i pc = record {
    cell = (update_step (fns i) r.cell pc).0;
    pcs = λ j. if j == i then (update_step (fns i) r.cell pc).1 else r.pcs j;
    log = if swaps r.cell pc then i ∷ r.log else r.log;
  }

  -- Caller `i` updates by `fns i`.
  abbrev pub updaters_step : Updaters M → ℕ → Updaters M
  updaters_step r i = moved r i (r.pcs i)

  unfoldable pub updaters_run : Updaters M → List ℕ → Updaters M
  updaters_run r [] = r
  updaters_run r (i ∷ is) = updaters_run (updaters_step r i) is

  abbrev pub updaters_start : M → Updaters M
  updaters_start m = record {
    cell = record { current = 0; heap = λ p. m; next = 1 };
    pcs = λ i. loading;
    log = [];
  }

  -- The updates of these callers, the first of the list last.
  abbrev pub replay : M → List ℕ → M
  replay m [] = m
  replay m (i ∷ is) = fns i (replay m is)

  abbrev pub count : ℕ → List ℕ → ℕ
  count i [] = 0
  count i (j ∷ js) = if i == j then suc (count i js) else count i js

  abbrev pub has_swapped : UpdatePc → Bool
  has_swapped loading = false
  has_swapped (computed old new) = false
  has_swapped swapped = true

  abbrev once : Bool → ℕ
  once b = if b then 1 else 0

  -- The copy is the update of what the loaded pointer points to.
  abbrev Point : ℕ → MetaCell M → UpdatePc → Type 0
  Point i cell loading = Unit
  Point i cell (computed old new) =
      (old < cell.next) × (new < cell.next) × (cell.heap new ≡ fns i (cell.heap old))
  Point i cell swapped = Unit

  record Inv (m : M) (r : Updaters M) : Type 0 where
    inside : r.cell.current < r.cell.next
    value : r.cell.heap r.cell.current ≡ replay m r.log
    points : (i : ℕ) → Point i r.cell (r.pcs i)
    counts : (i : ℕ) → count i r.log ≡ once (has_swapped (r.pcs i))

  -- What the others know stays so, since a pointer that is in use is not written.
  Point-keeps :
      (i j : ℕ) (cell : MetaCell M) (pc pc' : UpdatePc)
      → cell.current < cell.next
      → Point j cell pc
      → Point j (update_step (fns i) cell pc').0 pc
  unfolding update_step
  Point-keeps i j cell loading pc' h p = tt
  Point-keeps i j cell swapped pc' h p = tt
  Point-keeps i j cell (computed old new) loading h (a, b, e) = ground (arith, a, b, e)
  Point-keeps i j cell (computed old new) swapped h p = p
  Point-keeps i j cell (computed old new) (computed old' new') h (a, b, e) = ground (arith, a, b, e)

  Point-own :
      (i : ℕ) (cell : MetaCell M) (pc : UpdatePc)
      → cell.current < cell.next
      → let (cell', pc') = update_step (fns i) cell pc in Point i cell' pc'
  unfolding update_step
  Point-own i cell loading h = (omega arith, omega arith, ground arith)
  Point-own i cell swapped h = tt
  Point-own i cell (computed old new) h = elim (Bool-cases (cell.current == old)) [
    | inl e ↦ rw e tt
    | inr e ↦ rw e tt
  ]

  moved-value :
      (m : M) (r : Updaters M) (i : ℕ) (pc : UpdatePc)
      → Inv m r
      → Point i r.cell pc
      → let r' = moved r i pc in
        (r'.cell.current < r'.cell.next) × (r'.cell.heap r'.cell.current ≡ replay m r'.log)
  unfolding update_step
  moved-value m r i loading v p = ground (arith, v.inside, v.value)
  moved-value m r i swapped v p = (v.inside, v.value)
  moved-value m r i (computed old new) v (a, b, e) = elim (Bool-cases (r.cell.current == old)) [
    | inl s ↦
        let same : r.cell.current ≡ old = (==_iff r.cell.current old).0 s in
        rw s (b, e ∙ ap (fns i) (ap r.cell.heap (sym same) ∙ v.value))
    | inr s ↦ rw s (v.inside, v.value)
  ]

  moved-counts :
      (m : M) (r : Updaters M) (i j : ℕ) (pc : UpdatePc)
      → Inv m r
      → count i r.log ≡ once (has_swapped pc)
      → count j (moved r i pc).log ≡ once (has_swapped ((moved r i pc).pcs j))
  unfolding update_step
  moved-counts m r i j loading v c = ground (arith, c, v.counts j)
  moved-counts m r i j swapped v c = ground (arith, c, v.counts j)
  moved-counts m r i j (computed old new) v c = ground (arith, c, v.counts j)

  updaters_step-Inv : (m : M) (r : Updaters M) (i : ℕ) → Inv m r → Inv m (updaters_step r i)
  updaters_step-Inv m r i v =
      let (inside', value') = moved-value m r i (r.pcs i) v (v.points i) in
      record {
        inside = inside';
        value = value';
        points = λ j. elim (Bool-cases (j == i)) [
          | inl e ↦ rw e (rw (← sym ((==_iff j i).0 e)) (Point-own i r.cell (r.pcs i) v.inside))
          | inr e ↦ rw e (Point-keeps i j r.cell (r.pcs j) (r.pcs i) v.inside (v.points j))
        ];
        counts = λ j. moved-counts m r i j (r.pcs i) v (v.counts i);
      }

  updaters_run-Inv : (m : M) (r : Updaters M) (is : List ℕ) → Inv m r → Inv m (updaters_run r is)
  unfolding updaters_run
  updaters_run-Inv m r [] v = v
  updaters_run-Inv m r (i ∷ is) v =
      updaters_run-Inv m (updaters_step r i) is (updaters_step-Inv m r i v)

  -- However the callers of UpdateMeta interleave, the metadata is at every moment what the updates of the
  -- callers that have swapped give, one after the other in the order of their swaps: each of them
  -- counts exactly once, and no other does.
  pub updaters_run_lem :
      (m : M) (is : List ℕ) (i : ℕ)
      → let r = updaters_run (updaters_start m) is in
        (r.cell.heap r.cell.current ≡ replay m r.log)
        × (count i r.log ≡ (if has_swapped (r.pcs i) then 1 else 0))
  updaters_run_lem m is i =
      let v =
        updaters_run-Inv m (updaters_start m) is
          (record { inside = omega arith; value = refl; points = λ j. tt; counts = λ j. refl }) in
      (v.value, v.counts i)
