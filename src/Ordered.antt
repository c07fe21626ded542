-- ===== src/Ordered.antt =====
-- engine/ordered.go: in-order delivery with a buffer for what comes too early. The applier's arrays
-- are one `Slot` for each topic. The deliver callback is a list of what was handed to it, in order;
-- a goroutine that sleeps in gapTimer is the number that it was started with, and `gap_timer` is what
-- it does when it wakes. Each method runs alone, and sequence numbers wrap at 2 ^ 64.
pub mod Drain
pub mod Receive
pub mod Complete
pub mod Timer
pub mod Slots
mod Examples
use gossip_mesh.Base.{
  ℕ, zero, suc, ◌+◌, ◌-◌, ◌%◌, ◌<◌, ◌≤◌, ◌≡◌, Bool, true, false, Option, none, some, List, [], ◌∷◌,
  ◌++◌, length, ltb, ◌==◌, if◌then◌else◌, u64_mod,
}
use gossip_mesh.Base.Table.{lookup, insert, delete, nat_key}

-- A sequence number and its payload.
abbrev pub Item : Type 0
Item = ℕ × List ℕ

pub record Slot : Type 0 where
  pub next_seq : ℕ
  pub pending : List Item
  pub timer_active : Bool
  pub sleeping : List ℕ

unfoldable pub idle_slot : Slot
idle_slot = record { next_seq = 0; pending = []; timer_active = false; sleeping = [] }

abbrev pub next_of : ℕ → ℕ
next_of n = (n + 1) % u64_mod

-- The compare-and-swap on the timer flag, and the goroutine that it guards.
unfoldable pub start_timer : Slot → ℕ → Slot
start_timer s expected =
    if s.timer_active
    then s
    else record s { timer_active = true; sleeping = s.sleeping ++ expected ∷ [] }

-- The loop of drainPending: a round takes one buffered item.
unfoldable pub drain_loop : ℕ → Slot → Slot × List Item
drain_loop zero s = (s, [])
drain_loop (suc fuel) s = elim (lookup s.next_seq s.pending) [
  | none ↦ (s, [])
  | some payload ↦
      let (s', out) =
        drain_loop fuel
          (record s { next_seq = next_of s.next_seq; pending = delete s.next_seq s.pending }) in
      (s', (s.next_seq, payload) ∷ out)
]

-- A timer for what is still buffered.
unfoldable pub rearm : Slot → Slot
unfolding start_timer
rearm s = elim s.pending [ [] ↦ s | _ ↦ start_timer s s.next_seq ]

unfoldable pub drain_pending : Slot → Slot × List Item
drain_pending s = let (s', out) = drain_loop (length s.pending) s in (rearm s', out)

-- Deliver, move on to `next`, and drain.
unfoldable pub deliver_and_drain : Slot → ℕ → ℕ → List ℕ → Slot × List Item
deliver_and_drain s next seq payload =
    let (s', out) = drain_pending (record s { next_seq = next }) in (s', (seq, payload) ∷ out)

pub buffer : Slot → ℕ → List ℕ → Slot
buffer s seq payload = start_timer (record s { pending = insert seq payload s.pending }) s.next_seq

unfoldable pub receive : ℕ → Slot → ℕ → List ℕ → Slot × List Item
receive max_gap_buffer s seq payload =
    let expected : ℕ = s.next_seq in
    if ltb seq expected
    then (s, [])
    else if ltb expected seq
    then (if ltb max_gap_buffer (seq - expected)
        then deliver_and_drain s (next_of seq) seq payload
        else (buffer s seq payload, []))
    else deliver_and_drain s (next_of s.next_seq) seq payload

abbrev pub max_uint64 : ℕ
max_uint64 = u64_mod - 1

-- The loop over the buffer in skipGap.
pub min_pending : ℕ → List Item → ℕ
min_pending m [] = m
min_pending m ((seq, payload) ∷ rest) = min_pending (if ltb seq m then seq else m) rest

pub skip_gap : Slot → Slot × List Item
skip_gap s =
    let low : ℕ = min_pending max_uint64 s.pending in
    if low == max_uint64 then (s, []) else drain_pending (record s { next_seq = low })

-- `on_gap` is the callback: the slot and the deliveries that it leaves, and whether it filled the gap.
abbrev pub OnGap : Type 0
OnGap = Slot → ℕ → (Slot × List Item) × Bool

-- The first goroutine that was started with `expected` wakes up.
pub wake : ℕ → List ℕ → List ℕ
wake e [] = []
wake e (x ∷ xs) = if x == e then xs else x ∷ wake e xs

unfoldable pub gap_timer : OnGap → Slot → ℕ → Slot × List Item
gap_timer on_gap s expected_at_start =
    let awake : Slot = record s {
      timer_active = false;
      sleeping = wake expected_at_start s.sleeping;
    } in
    if awake.next_seq == expected_at_start
    then (let ((s', out), filled) = on_gap awake awake.next_seq in
        let (s'', more) = skip_gap s' in if filled then (s', out) else (s'', out ++ more))
    else (awake, [])

pub set_next_seq : Slot → ℕ → Slot
set_next_seq s seq = record s { next_seq = seq; pending = [] }
