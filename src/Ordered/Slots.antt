-- ===== src/Ordered/Slots.antt =====
-- The operations of the applier and the invariant of a slot (engine/ordered.go).
use gossip_mesh.Base.{
  ℕ, ◌≡◌, refl, ap, ◌∙◌, Option, none, some, List, [], ◌∷◌, length, false, ◌==◌, inl, inr,
  Bool-cases, ==_iff,
}
use gossip_mesh.Base.Table.{lookup, nat_key}
use gossip_mesh.Ordered.{
  Slot, idle_slot, receive, gap_timer, skip_gap, set_next_seq, min_pending, max_uint64, next_of,
  deliver_and_drain, wake,
}
use gossip_mesh.Ordered.Drain.{IsSlot, drain_pending-IsSlot}
use gossip_mesh.Ordered.Receive.{receive_cases, buffer-IsSlot}
use gossip_mesh.Ordered.Timer.{repair_gap}

pub idle_slot-IsSlot : IsSlot idle_slot
unfolding idle_slot lookup
idle_slot-IsSlot = record { distinct = tt; drained = refl; one_timer = refl }

pub receive_keeps-IsSlot :
    (max : ℕ) (s : Slot) (seq : ℕ) (p : List ℕ) → IsSlot s → IsSlot (receive max s seq p).0
unfolding deliver_and_drain
receive_keeps-IsSlot max s seq p v =
    let drain =
      (drain_pending-IsSlot (record s { next_seq = next_of seq }) v.distinct v.one_timer).0 in
    receive_cases (λ r. IsSlot r.0) max s seq p (λ _. v) (λ _. drain)
      (λ lt _. buffer-IsSlot s seq p lt v) (λ _. drain)

skip_gap-IsSlot : (s : Slot) → IsSlot s → IsSlot (skip_gap s).0
unfolding skip_gap
skip_gap-IsSlot s v = elim (Bool-cases (min_pending max_uint64 s.pending == max_uint64)) [
  | inl e ↦ rw (e, skip_gap) v
  | inr e ↦
      rw (e, skip_gap)
        (drain_pending-IsSlot (record s { next_seq = min_pending max_uint64 s.pending }) v.distinct
          v.one_timer).0
]

abbrev woken : Slot → ℕ → Slot
woken s e = record s { timer_active = false; sleeping = wake e s.sleeping }

woken-IsSlot : (s : Slot) (e : ℕ) → s.sleeping ≡ e ∷ [] → IsSlot s → IsSlot (woken s e)
unfolding wake
woken-IsSlot s e one v = record {
  distinct = v.distinct;
  drained = v.drained;
  one_timer = ap (λ xs. length (wake e xs)) one ∙ rw ((==_iff e e).1 refl, wake) refl;
}

-- The one goroutine that sleeps wakes up, with the outcome of the repair.
pub gap_timer-IsSlot :
    (max : ℕ) (found : Option (List ℕ)) (s : Slot) (e : ℕ)
    → s.sleeping ≡ e ∷ []
    → IsSlot s
    → IsSlot (gap_timer (repair_gap max found) s e).0
unfolding gap_timer repair_gap
gap_timer-IsSlot max none s e one v = elim (Bool-cases (s.next_seq == e)) [
  | inr late ↦ rw (late, gap_timer) (woken-IsSlot s e one v)
  | inl in_time ↦ rw (in_time, gap_timer) (skip_gap-IsSlot (woken s e) (woken-IsSlot s e one v))
]
gap_timer-IsSlot max (some p) s e one v = elim (Bool-cases (s.next_seq == e)) [
  | inr late ↦ rw (late, gap_timer) (woken-IsSlot s e one v)
  | inl in_time ↦
      rw (in_time, gap_timer)
        (receive_keeps-IsSlot max (woken s e) s.next_seq p (woken-IsSlot s e one v))
]

pub set_next_seq-IsSlot : (s : Slot) (n : ℕ) → IsSlot s → IsSlot (set_next_seq s n)
unfolding set_next_seq lookup
set_next_seq-IsSlot s n v = record { distinct = tt; drained = refl; one_timer = v.one_timer }
