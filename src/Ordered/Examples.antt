-- ===== src/Ordered/Examples.antt =====
-- The ordered applier at concrete slots.
use gossip_mesh.Base.{
  ℕ, ◌+◌, ◌<◌, ◌≤◌, ◌≡◌, ◌≢◌, refl, arith, true, false, none, some, List, [], ◌∷◌, Any,
}
use gossip_mesh.Base.Table.{lookup, nat_key}
use gossip_mesh.Ordered.{
  Item, Slot, receive, deliver_and_drain, drain_pending, drain_loop, rearm, min_pending, max_uint64,
  gap_timer,
}
use gossip_mesh.Ordered.Drain.{Run, IsSlot, IsArmed}
use gossip_mesh.Ordered.Receive.{receive-IsSlot, receive-Run}
use gossip_mesh.Ordered.Complete.{Bounded, receive_all, receive_all_complete}
use gossip_mesh.Ordered.Timer.{
  repair_gap, waits_for, gap_timer_stranded, gap_timer_skips, gap_timer_rewinds,
}

-- Nothing received; 4 is expected.
abbrev fresh_slot : Slot
fresh_slot = record { next_seq = 4; pending = []; timer_active = false; sleeping = [] }

-- 4 is missing, 6 has come, and a goroutine sleeps.
abbrev gap_slot : Slot
gap_slot = record {
  next_seq = 4;
  pending = (6, 66 ∷ []) ∷ [];
  timer_active = true;
  sleeping = 4 ∷ [];
}

-- As before, with an item below the expected number.
abbrev stale_slot : Slot
stale_slot = record {
  next_seq = 4;
  pending = (2, 22 ∷ []) ∷ [];
  timer_active = true;
  sleeping = 4 ∷ [];
}

abbrev swapped_items : List Item
swapped_items = (5, 55 ∷ []) ∷ (4, 44 ∷ []) ∷ (5, 50 ∷ []) ∷ (6, 66 ∷ []) ∷ []

fresh_slot-IsSlot : IsSlot fresh_slot
unfolding lookup
fresh_slot-IsSlot = record { distinct = tt; drained = refl; one_timer = refl }

gap_slot-IsSlot : IsSlot gap_slot
unfolding lookup
gap_slot-IsSlot = record { distinct = (tt, tt); drained = refl; one_timer = refl }

stale_slot-IsSlot : IsSlot stale_slot
unfolding lookup
stale_slot-IsSlot = record { distinct = (tt, tt); drained = refl; one_timer = refl }

swapped_items_all : (k : ℕ) → 4 ≤ k → k < 4 + 3 → Any (λ i. i.0 ≡ k) swapped_items
swapped_items_all k h h' = ground arith

gap_slot-Bounded : Bounded gap_slot
unfolding lookup
gap_slot-Bounded k p h = ground arith

gap_slot_six : lookup 6 gap_slot.pending ≡ some (66 ∷ [])
unfolding lookup
gap_slot_six = refl

stale_slot_two : lookup 2 stale_slot.pending ≡ some (22 ∷ [])
unfolding lookup
stale_slot_two = refl

-- The gap is filled, and the buffered 6 follows.
receive_fills :
    receive 64 gap_slot 4 (44 ∷ []) ≡ (record gap_slot { next_seq = 5 }, (4, 44 ∷ []) ∷ [])
unfolding receive deliver_and_drain drain_pending drain_loop rearm lookup
receive_fills = refl

receive_all_complete_example :
    Run 4
      (receive_all 64 gap_slot swapped_items).1
      (receive_all 64 gap_slot swapped_items).0.next_seq
    × (4 + 3 ≤ (receive_all 64 gap_slot swapped_items).0.next_seq)
receive_all_complete_example =
    receive_all_complete 64 gap_slot swapped_items 3 gap_slot-IsSlot (λ off. cc) gap_slot-Bounded
      (
        (omega arith, omega arith),
        (
          (omega arith, omega arith),
          ((omega arith, omega arith), ((omega arith, omega arith), tt)),
        ),
      )
      swapped_items_all

receive-IsSlot_example :
    IsSlot (receive 64 gap_slot 4 (44 ∷ [])).0 × IsArmed (receive 64 gap_slot 4 (44 ∷ [])).0
receive-IsSlot_example = receive-IsSlot 64 gap_slot 4 (44 ∷ []) gap_slot-IsSlot (λ off. cc)

receive-Run_example :
    Run 4 (receive 64 gap_slot 4 (44 ∷ [])).1 (receive 64 gap_slot 4 (44 ∷ [])).0.next_seq
receive-Run_example = receive-Run 64 gap_slot 4 (44 ∷ []) (omega arith)

-- 6 comes early, 4 fills the first gap, and the goroutine that was started for 4 wakes.
gap_timer_stranded_example :
    let early = receive 64 (waits_for 4) 6 (66 ∷ []) in
    let filled = receive 64 early.0 4 (44 ∷ []) in
    let woken = gap_timer (repair_gap 64 none) filled.0 4 in
    (early.1 ≡ [])
    × (filled.1 ≡ (4, 44 ∷ []) ∷ [])
    × (woken ≡ (record (waits_for 5) { pending = (6, 66 ∷ []) ∷ [] }, []))
gap_timer_stranded_example =
    gap_timer_stranded 64 (repair_gap 64 none) 4 6 (66 ∷ []) (44 ∷ []) (omega arith) (omega arith)
      (omega arith)

gap_slot_above : (j : ℕ) (q : List ℕ) → lookup j gap_slot.pending ≡ some q → 4 < j
unfolding lookup
gap_slot_above j q h = ground arith

gap_timer_skips_example :
    let r = gap_timer (repair_gap 64 none) gap_slot 4 in
    let low = min_pending max_uint64 gap_slot.pending in
    (4 < low) × (low ≤ 6) × Run low r.1 r.0.next_seq × (r.1 ≢ []) × IsSlot r.0 × IsArmed r.0
gap_timer_skips_example =
    gap_timer_skips 64 gap_slot 6 (66 ∷ []) gap_slot-IsSlot refl gap_slot_above gap_slot_six
      (omega arith)

gap_timer_rewinds_example :
    let r = gap_timer (repair_gap 64 none) stale_slot 4 in
    (low : ℕ) × (low < 4) × Run low r.1 r.0.next_seq × (r.1 ≢ [])
gap_timer_rewinds_example =
    gap_timer_rewinds 64 stale_slot 2 (22 ∷ []) stale_slot-IsSlot refl stale_slot_two (omega arith)
      (omega arith)
