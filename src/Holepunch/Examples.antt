-- ===== src/Holepunch/Examples.antt =====
-- Two nodes whose signals are encoded as nothing but the writer's own.
use Prim.Native.String.{String}
use text.Mathlib.Text.{◌==◌ as str_eq}
use text.Mathlib.TextEquality.{eq_iff}
use gossip_mesh.Base.{
  ℕ, zero, suc, ◌++◌, ◌≡◌, ◌≢◌, refl, ap, arith, true, false, Bool, ◌&&◌, ◌==◌, Option, none, some,
  List, [], ◌∷◌, inl, inr, if◌then◌else◌, Bool-cases,
}
use gossip_mesh.Holepunch.Pair.{
  Party, Attempts, PunchEvent, writing, waiting, returned, signal_of, attempts_run, attempts_step,
  punch_step,
}
use gossip_mesh.Holepunch.Pair.Runs.{attempts_run-OnlyTo, OnlyTo, dialed}
use gossip_mesh.Holepunch.Pair.Starved.{attempts_run_starved}
use gossip_mesh.Holepunch.Pair.Rounds.{attempts_run_dials, tick, ticks_over}
use gossip_mesh.Base.Table.{string_key, lookup, insert, delete}
use gossip_mesh.Bootstrap.Memory.{memory_ops}
use gossip_mesh.ObjectStore.{MemoryObjectStore, put, store_object, get, list, delete_object, done}
use gossip_mesh.Holepunch.{
  Signal, signal_prefix, signal_key, write_under, read_loop, read_signals, dialing,
}
use gossip_mesh.Holepunch.Signals.{read_signals-write_signal_for_peer}

abbrev from_b : Signal
from_b = record { node_id = "b"; addr = "198.51.100.2:7001"; nonce = "01"; time = 5 }

abbrev one_byte : Signal → Option (List ℕ)
one_byte sig = some (1 ∷ [])

abbrev always_b : List ℕ → Option Signal
always_b bytes = some from_b

abbrev etag : ℕ → String
etag n = "v"

abbrev unsorted : List String → List String
unsorted ks = ks

abbrev empty_store : MemoryObjectStore
empty_store = record { objects = []; version = 0 }

abbrev signalled : MemoryObjectStore
signalled = record {
  objects = (signal_key "b" "a" "b", record { data_bytes = 1 ∷ []; etag = "v" }) ∷ [];
  version = 1;
}

other_name : (a b : String) → str_eq a b ≡ false → a ≢ b
other_name a b e same = cc (e, (eq_iff a b).1 same)

read_signals-write_signal_for_peer_example :
    (p : Signal) × (some from_b ≡ some p) × (p.node_id ≡ "b")
unfolding signal_key write_under signal_prefix read_signals read_loop list get put store_object
    insert lookup
read_signals-write_signal_for_peer_example =
    read_signals-write_signal_for_peer etag unsorted (λ k ks a. a) one_byte always_b 5 empty_store
      signalled "b" "a" from_b (1 ∷ []) (none, some from_b) (other_name "b" "a" refl) refl refl refl
      refl refl

abbrev two_ticks : MemoryObjectStore → List MemoryObjectStore × MemoryObjectStore
two_ticks s = (s ∷ signalled ∷ [], signalled)

-- Two nodes whose attempts write at time 5, and an encoding of their two signals.
abbrev node_a : Party
node_a = record { id = "a"; addr = "198.51.100.1:7000"; nonce = "00" }

abbrev node_b : Party
node_b = record { id = "b"; addr = "198.51.100.2:7001"; nonce = "01" }

abbrev written_by : Party → Signal
written_by p = record (signal_of p) { time = 5 }

unfoldable same_signal : Signal → Signal → Bool
same_signal x y =
    str_eq x.node_id y.node_id
    && (str_eq x.addr y.addr && (str_eq x.nonce y.nonce && (x.time == y.time)))

same_signal-equal : (x y : Signal) → same_signal x y ≡ true → x ≡ y
unfolding same_signal
same_signal-equal x y e =
    ground (arith, eq_iff x.node_id y.node_id, eq_iff x.addr y.addr, eq_iff x.nonce y.nonce)

abbrev one_of_two : Signal → Option (List ℕ)
one_of_two sig =
    if same_signal sig (written_by node_a)
    then some (1 ∷ [])
    else if same_signal sig (written_by node_b)
    then some (2 ∷ [])
    else none

abbrev read_one : List ℕ → Option Signal
read_one [] = none
read_one (n ∷ ns) = if n == 1 then some (written_by node_a) else some (written_by node_b)

read_one-one_of_two :
    (sig : Signal) (bytes : List ℕ) → one_of_two sig ≡ some bytes → read_one bytes ≡ some sig
read_one-one_of_two sig bytes e = elim (Bool-cases (same_signal sig (written_by node_a))) [
  | inl is_a ↦ cc (read (rw is_a at e), same_signal-equal sig (written_by node_a) is_a)
  | inr not_a ↦ elim (Bool-cases (same_signal sig (written_by node_b))) [
    | inl is_b ↦ cc (read (rw (not_a, is_b) at e), same_signal-equal sig (written_by node_b) is_b)
    | inr not_b ↦ cc (rw (not_a, not_b) at e)
  ]
]
  where
    read : {bs : List ℕ} → some bs ≡ some bytes → read_one bs ≡ read_one bytes
    read same = ap (λ o. elim o [ none ↦ none | some x ↦ read_one x ]) same

abbrev at_5 : Bool → PunchEvent
at_5 first = record { of_first = first; now = 5; late = false }

abbrev steps : ℕ → PunchEvent → List PunchEvent
steps zero e = []
steps (suc n) e = e ∷ steps n e

abbrev both_written : List PunchEvent
both_written = at_5 true ∷ at_5 false ∷ []

-- The first attempt runs to its end between two ticks of the second one.
abbrev first_alone : List PunchEvent
first_alone = both_written ++ steps 9 (at_5 true)

abbrev before_both : Attempts MemoryObjectStore
before_both = record { store = empty_store; first = writing; second = writing }

abbrev run_of : List PunchEvent → Attempts MemoryObjectStore
run_of es = attempts_run (memory_ops etag unsorted) one_of_two read_one node_a node_b es before_both

first_ended : (run_of first_alone).first ≡ returned (dialing "198.51.100.2:7001")
unfolding attempts_run attempts_step punch_step write_under signal_key signal_prefix list get put
    store_object insert lookup delete_object delete same_signal
first_ended = refl

second_waits : (run_of first_alone).second ≡ waiting
unfolding attempts_run attempts_step punch_step write_under signal_key signal_prefix list get put
    store_object insert lookup delete_object delete same_signal
second_waits = refl

attempts_run-OnlyTo_example :
    OnlyTo "198.51.100.2:7001" (run_of first_alone).first
    × OnlyTo "198.51.100.1:7000" (run_of first_alone).second
unfolding get lookup
attempts_run-OnlyTo_example =
    attempts_run-OnlyTo etag unsorted one_of_two read_one (λ k ks there. there) (λ P ks all. all)
      read_one-one_of_two node_a node_b (other_name "a" "b" refl) first_alone before_both
      (
        tt,
        refl,
        refl,
        λ k sig under there from. cc (there.2),
        λ k sig under there from. cc (there.2),
      )

attempts_run_starved_example :
    dialed
      (attempts_run
        (memory_ops etag unsorted)
        one_of_two
        read_one
        node_a
        node_b
        (steps 20 (at_5 false))
        (run_of first_alone)).second
    ≡ none
unfolding get lookup
attempts_run_starved_example =
    attempts_run_starved etag unsorted one_of_two read_one (λ k ks there. there) (λ P ks all. all)
      read_one-one_of_two node_a node_b (other_name "a" "b" refl) first_alone
      (steps 20 (at_5 false)) before_both (dialing "198.51.100.2:7001")
      (
        tt,
        refl,
        refl,
        λ k sig under there from. cc (there.2),
        λ k sig under there from. cc (there.2),
      )
      first_ended (inr second_waits)

abbrev both_waiting : Attempts MemoryObjectStore
both_waiting = run_of both_written

second_ready : both_waiting.second ≡ waiting
unfolding attempts_run attempts_step punch_step write_under signal_key signal_prefix list get put
    store_object insert lookup same_signal
second_ready = refl

signal_there :
    get both_waiting.store (signal_key "a" "b" "a") ≡ done (1 ∷ [], record { size = 1; etag = "v" })
unfolding attempts_run attempts_step punch_step write_under signal_key signal_prefix list get put
    store_object insert lookup same_signal
signal_there = refl

attempts_run_dials_example :
    let round = tick 6 ∷ ticks_over (list unsorted both_waiting.store (signal_prefix "b" "a")) 6 in
    dialed
      (attempts_run
        (memory_ops etag unsorted)
        one_of_two
        read_one
        node_a
        node_b
        round
        both_waiting).second
    ≡ some "198.51.100.1:7000"
unfolding get lookup signal_key signal_prefix
attempts_run_dials_example =
    attempts_run_dials etag unsorted one_of_two read_one node_a node_b (other_name "a" "b" refl)
      (λ k ks there. there) (λ P ks all. all) read_one-one_of_two both_written before_both 6
      (signal_key "a" "b" "a") (written_by node_a)
      (
        tt,
        refl,
        refl,
        λ k sig under there from. cc (there.2),
        λ k sig under there from. cc (there.2),
      )
      second_ready refl (1 ∷ [], record { size = 1; etag = "v" }, signal_there, refl) refl
