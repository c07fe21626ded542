-- ===== src/Ordered/Drain.antt =====
-- drainPending (engine/ordered.go): what it delivers, what it leaves, and that its loop ends.
use gossip_mesh.Base.{
  ℕ, zero, suc, ◌≤◌, ◌≡◌, ◌≢◌, refl, arith, false, none, some, List, [], ◌∷◌, length, length-append,
  ◌==◌, if◌then◌else◌, Option-cases, inl, inr, ◌⊎◌, Any, All, All-map, Bool-cases,
}
use gossip_mesh.Base.Table.{
  lookup, lookup_short, lookup-delete-some, delete, length-delete, lookup-delete, IsMap,
  delete-IsMap, nat_key,
}
use gossip_mesh.Ordered.{Item, Slot, next_of, start_timer, drain_loop, rearm, drain_pending}

-- The items carry the sequence numbers from `n` on, one by one, and `m` is the number after them.
abbrev pub Run : ℕ → List Item → ℕ → Type 0
Run n [] m = n ≡ m
Run n (i ∷ is) m = (i.0 ≡ n) × Run (next_of n) is m

abbrev pub Delivered : ℕ → List ℕ → List Item → Type 0
Delivered seq payload = Any (λ i. (i.0 ≡ seq) × (i.1 ≡ payload))

-- One item after another, from the expected number on.
pub drain_loop-Run :
    (fuel : ℕ) (s : Slot) → Run s.next_seq (drain_loop fuel s).1 (drain_loop fuel s).0.next_seq
unfolding drain_loop
drain_loop-Run zero s = refl
drain_loop-Run (suc fuel) s = elim (Option-cases (lookup s.next_seq s.pending)) [
  | inl e ↦ rw (e, drain_loop) refl
  | inr (p, e) ↦ rw (e, drain_loop) (refl, drain_loop-Run fuel _)
]

-- With as much fuel as there are items the loop ends by its test.
pub drain_loop_done :
    (fuel : ℕ) (s : Slot)
    → length s.pending ≤ fuel
    → lookup (drain_loop fuel s).0.next_seq (drain_loop fuel s).0.pending ≡ none
unfolding drain_loop
drain_loop_done zero s h = lookup_short s.next_seq s.pending h
drain_loop_done (suc fuel) s h = elim (Option-cases (lookup s.next_seq s.pending)) [
  | inl e ↦ rw (e, drain_loop) e
  | inr (p, e) ↦
      rw (e, drain_loop)
        (drain_loop_done fuel _ (omega (arith, length-delete s.next_seq p s.pending e)))
]

-- The loop touches the expected number and the buffer alone.
drain_loop-timers :
    (fuel : ℕ) (s : Slot)
    → ((drain_loop fuel s).0.timer_active ≡ s.timer_active)
      × ((drain_loop fuel s).0.sleeping ≡ s.sleeping)
unfolding drain_loop
drain_loop-timers zero s = (refl, refl)
drain_loop-timers (suc fuel) s = elim (Option-cases (lookup s.next_seq s.pending)) [
  | inl e ↦ rw (e, drain_loop) (refl, refl)
  | inr (p, e) ↦ rw (e, drain_loop) (drain_loop-timers fuel _)
]

abbrev step_slot : Slot → Slot
step_slot s = record s { next_seq = next_of s.next_seq; pending = delete s.next_seq s.pending }

drain_loop-IsMap : (fuel : ℕ) (s : Slot) → IsMap s.pending → IsMap (drain_loop fuel s).0.pending
unfolding drain_loop
drain_loop-IsMap zero s u = u
drain_loop-IsMap (suc fuel) s u = elim (Option-cases (lookup s.next_seq s.pending)) [
  | inl e ↦ rw (e, drain_loop) u
  | inr (p, e) ↦
      rw (e, drain_loop) (drain_loop-IsMap fuel (step_slot s) (delete-IsMap s.next_seq s.pending u))
]

-- Nothing is lost: an item of the buffer is delivered or stays.
drain_loop_keeps :
    (fuel : ℕ) (s : Slot) (k : ℕ) (p : List ℕ)
    → IsMap s.pending
    → lookup k s.pending ≡ some p
    → (lookup k (drain_loop fuel s).0.pending ≡ some p) ⊎ Delivered k p (drain_loop fuel s).1
unfolding drain_loop
drain_loop_keeps zero s k p u h = inl h
drain_loop_keeps (suc fuel) s k p u h = elim (Option-cases (lookup s.next_seq s.pending)) [
  | inl e ↦ rw (e, drain_loop) (inl h)
  | inr (q, e) ↦
      rw (e, drain_loop)
        (elim (Bool-cases (s.next_seq == k)) [
          | inl same ↦ inr (inl (ground arith))
          | inr other ↦
              elim (drain_loop_keeps fuel (step_slot s) k p (delete-IsMap s.next_seq s.pending u)
                (rw (lookup-delete s.next_seq k s.pending u, other) h)) [
                  | inl a ↦ inl a
                  | inr b ↦ inr (inr b)
                ]
        ])
]

-- Nothing is made up: what is delivered was in the buffer, and what stays was there too.
drain_loop_from :
    (fuel : ℕ) (s : Slot)
    → IsMap s.pending
    → All (λ i. lookup i.0 s.pending ≡ some i.1) (drain_loop fuel s).1
      × ((k : ℕ) (p : List ℕ)
          → lookup k (drain_loop fuel s).0.pending ≡ some p
          → lookup k s.pending ≡ some p)
unfolding drain_loop
drain_loop_from zero s u = (tt, λ k p h. h)
drain_loop_from (suc fuel) s u = elim (Option-cases (lookup s.next_seq s.pending)) [
  | inl e ↦ rw (e, drain_loop) (tt, λ k p h. h)
  | inr (q, e) ↦
      let (old, kept) = drain_loop_from fuel (step_slot s) (delete-IsMap s.next_seq s.pending u) in
      rw (e, drain_loop)
        (
          (e, All-map _ _ (λ i h. (lookup-delete-some s.next_seq i.0 i.1 s.pending u h).0) _ old),
          λ k p h. (lookup-delete-some s.next_seq k p s.pending u (kept k p h)).0,
        )
]

-- The slot holds an item with this number.
abbrev pub Has : ℕ → Slot → Type 0
Has k s = (p : List ℕ) × (lookup k s.pending ≡ some p)

-- What the applier keeps between calls: one item for each number, the expected number not among
-- them, and a sleeping goroutine exactly when the timer flag is set.
pub record IsSlot (s : Slot) : Type 0 where
  pub distinct : IsMap s.pending
  pub drained : lookup s.next_seq s.pending ≡ none
  pub one_timer : length s.sleeping ≡ (if s.timer_active then 1 else 0)

-- A slot with buffered items has its timer running.
abbrev pub IsArmed : Slot → Type 0
IsArmed s = s.timer_active ≡ false → s.pending ≡ []

rearm_keeps : (s : Slot) → ((rearm s).next_seq ≡ s.next_seq) × ((rearm s).pending ≡ s.pending)
unfolding rearm
rearm_keeps s = ground arith

rearm-IsArmed : (s : Slot) → IsArmed (rearm s)
unfolding rearm
rearm-IsArmed s h = ground arith

pub start_timer-one :
    (s : Slot) (n : ℕ)
    → length s.sleeping ≡ (if s.timer_active then 1 else 0)
    → length (start_timer s n).sleeping ≡ (if (start_timer s n).timer_active then 1 else 0)
unfolding start_timer
start_timer-one s n h = ground (arith, length-append s.sleeping (n ∷ []))

rearm-one :
    (s : Slot)
    → length s.sleeping ≡ (if s.timer_active then 1 else 0)
    → length (rearm s).sleeping ≡ (if (rearm s).timer_active then 1 else 0)
unfolding rearm
rearm-one s h = ground (arith, length-append s.sleeping (s.next_seq ∷ []))

-- The loop of drainPending as drainPending calls it.
abbrev pub drained_slot : Slot → Slot
drained_slot s = (drain_loop (length s.pending) s).0

pub drain_pending-IsSlot :
    (s : Slot)
    → IsMap s.pending
    → length s.sleeping ≡ (if s.timer_active then 1 else 0)
    → IsSlot (drain_pending s).0 × IsArmed (drain_pending s).0
unfolding drain_pending
drain_pending-IsSlot s u one =
    let d = drained_slot s in
    let (ft, fs) = drain_loop-timers (length s.pending) s in
    (
      record {
        distinct = rw (rearm_keeps d).1 (drain_loop-IsMap (length s.pending) s u);
        drained =
            rw ((rearm_keeps d).0, (rearm_keeps d).1)
              (drain_loop_done (length s.pending) s (omega arith));
        one_timer = rearm-one d (rw (ft, fs) one);
      },
      rearm-IsArmed d,
    )

pub drain_pending-Run : (s : Slot) → Run s.next_seq (drain_pending s).1 (drain_pending s).0.next_seq
unfolding drain_pending
drain_pending-Run s = rw (rearm_keeps (drained_slot s)).0 (drain_loop-Run (length s.pending) s)

pub drain_pending_keeps :
    (s : Slot) (k : ℕ) (p : List ℕ)
    → IsMap s.pending
    → lookup k s.pending ≡ some p
    → (lookup k (drain_pending s).0.pending ≡ some p) ⊎ Delivered k p (drain_pending s).1
unfolding drain_pending
drain_pending_keeps s k p u h =
    rw (rearm_keeps (drained_slot s)).1 (drain_loop_keeps (length s.pending) s k p u h)

pub drain_pending_from :
    (s : Slot)
    → IsMap s.pending
    → All (λ i. lookup i.0 s.pending ≡ some i.1) (drain_pending s).1
      × ((k : ℕ) (p : List ℕ)
          → lookup k (drain_pending s).0.pending ≡ some p
          → lookup k s.pending ≡ some p)
unfolding drain_pending
drain_pending_from s u =
    rw (rearm_keeps (drained_slot s)).1 (drain_loop_from (length s.pending) s u)

-- Where the expected number is buffered, something is delivered.
pub drain_pending-ne-nil :
    (s : Slot) → lookup s.next_seq s.pending ≢ none → (drain_pending s).1 ≢ []
unfolding drain_pending drain_loop
drain_pending-ne-nil s has = go (length s.pending) refl
  where
    go : (n : ℕ) → length s.pending ≡ n → (drain_loop n s).1 ≢ []
    go zero e h = has (lookup_short s.next_seq s.pending (omega arith))
    go (suc n) e h = elim (Option-cases (lookup s.next_seq s.pending)) [
      | inl none_there ↦ has none_there
      | inr (p, there) ↦ cc (rw (there, drain_loop) at h)
    ]
