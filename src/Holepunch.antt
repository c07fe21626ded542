-- ===== src/Holepunch.antt =====
-- holepunch/: two nodes that find each other by signals in the object store (signal.go), and one node's
-- attempt (punch.go). encoding/json, the clock, crypto/rand and the dial are not part of the repository: they
-- are parameters, and so are the states in which the store is at the ticks of the poll.
pub mod Signals
pub mod Cleanup
pub mod Attempt
pub mod Pair
mod Examples
use Prim.Native.String.{String, ◌++◌ as append}
use text.Mathlib.Text.{◌==◌ as str_eq}
use gossip_mesh.Base.{ℕ, Bool, Option, none, some, List, [], ◌∷◌, if◌then◌else◌}
use gossip_mesh.Base.Strings.{str_lt}
use gossip_mesh.ObjectStore.{StoreError, StoreResult, done, failed, not_found}
use gossip_mesh.Bootstrap.{ObjectStoreOps}

pub record Signal : Type 0 where
  pub node_id : String
  pub addr : String
  pub nonce : String
  pub time : ℕ

pub data SignalError : Type 0 where
  marshal_signal : SignalError
  put_signal list_signals : StoreError → SignalError
  get_signal : String → StoreError → SignalError

pub data SignalResult {ℓ} (A : Type ℓ) : Type ℓ where
  success : A → SignalResult A
  failure : SignalError → SignalResult A

-- The lower and the higher of two node ids.
abbrev pub ordered_pair : String → String → String × String
ordered_pair a b = if str_lt b a then (b, a) else (a, b)

unfoldable pub signal_prefix : String → String → String
signal_prefix a b =
    let (lower, higher) = ordered_pair a b in
    append (append (append (append "signal/" lower) "/") higher) "/"

unfoldable pub signal_key : String → String → String → String
signal_key a b writer =
    let (lower, higher) = ordered_pair a b in
    append (append (append (append (append "signal/" lower) "/") higher) "/") writer

-- How AttemptHolePunch ends: with an error before the poll, at the deadline, or with a dial to an address.
pub data PunchEnd : Type 0 where
  no_nonce : PunchEnd
  not_written : SignalError → PunchEnd
  timed_out : PunchEnd
  dialing : String → PunchEnd

module _ {S : Type 0} (ops : ObjectStoreOps S) (marshal : Signal → Option (List ℕ))
    (unmarshal : List ℕ → Option Signal) where
  -- The two functions that write a signal differ in the key.
  unfoldable pub write_under : ℕ → S → String → Signal → S × SignalResult (Unit {0})
  write_under now s key sig = elim (marshal (record sig { time = now })) [
    | none ↦ (s, failure marshal_signal)
    | some bytes ↦
        let (s', result) = ops.put_object s key bytes [] in
        (s', elim result [ done info ↦ success tt | failed e ↦ failure (put_signal e) ])
  ]

  abbrev pub write_signal : ℕ → S → Signal → S × SignalResult (Unit {0})
  write_signal now s sig = write_under now s (signal_key sig.node_id sig.addr sig.node_id) sig

  abbrev pub write_signal_for_peer : ℕ → S → String → String → Signal → S × SignalResult (Unit {0})
  write_signal_for_peer now s self_id target_id sig =
      write_under now s (signal_key self_id target_id self_id) sig

  -- What one signal that was read is taken for.
  abbrev pub note_signal :
      String → String → Signal → Option Signal × Option Signal → Option Signal × Option Signal
  note_signal self_id target_id sig found =
      if str_eq sig.node_id self_id
      then (some sig, found.1)
      else (if str_eq sig.node_id target_id then (found.0, some sig) else found)

  -- The loop of ReadSignals, with the signals found before.
  unfoldable pub read_loop :
      String
      → String
      → S
      → List String
      → Option Signal × Option Signal
      → SignalResult (Option Signal × Option Signal)
  read_loop self_id target_id s [] found = success found
  read_loop self_id target_id s (key ∷ rest) found = elim (ops.get_object s key) [
    | failed not_found ↦ read_loop self_id target_id s rest found
    | failed e ↦ failure (get_signal key e)
    | done (bytes, info) ↦ elim (unmarshal bytes) [
      | none ↦ read_loop self_id target_id s rest found
      | some sig ↦ read_loop self_id target_id s rest (note_signal self_id target_id sig found)
    ]
  ]

  -- The node's own signal and the peer's.
  unfoldable pub read_signals : S → String → String → SignalResult (Option Signal × Option Signal)
  read_signals s self_id target_id = elim (ops.list_keys s (signal_prefix self_id target_id)) [
    | failed e ↦ failure (list_signals e)
    | done found ↦ read_loop self_id target_id s found (none, none)
  ]

  unfoldable pub cleanup_loop : S → List String → S
  cleanup_loop s [] = s
  cleanup_loop s (key ∷ rest) = cleanup_loop (ops.delete_key s key).0 rest

  unfoldable pub cleanup_signal : S → String → String → S × SignalResult (Unit {0})
  cleanup_signal s self_id target_id = elim (ops.list_keys s (signal_prefix self_id target_id)) [
    | failed e ↦ (s, failure (list_signals e))
    | done found ↦ (cleanup_loop s found, success tt)
  ]

  -- The poll: the peer's signal at the first tick that finds it.
  unfoldable pub poll : String → String → List S → Option Signal
  poll self_id target_id [] = none
  poll self_id target_id (s ∷ ss) =
      let later : Option Signal = poll self_id target_id ss in
      elim (read_signals s self_id target_id) [
        | failure e ↦ later
        | success (own, none) ↦ later
        | success (own, some peer) ↦ some peer
      ]

  -- AttemptHolePunch. `around` gives, for the store after the write, its states at the ticks before the
  -- deadline and at the end, when the signals are cleaned up.
  unfoldable pub attempt_hole_punch :
      ℕ → Option String → (S → List S × S) → S → String → String → String → S × PunchEnd
  attempt_hole_punch now nonce around s self_id target_id self_addr = elim nonce [
    | none ↦ (s, no_nonce)
    | some fresh ↦
        let (s', written) =
          write_signal_for_peer now s self_id target_id
            (record { node_id = self_id; addr = self_addr; nonce = fresh; time = 0 }) in
        let (ticks, last) = around s' in
        elim written [
          | failure e ↦ (s', not_written e)
          | success _ ↦ (
            (cleanup_signal last self_id target_id).0,
            elim (poll self_id target_id ticks) [
              | none ↦ timed_out
              | some peer ↦ dialing peer.addr
            ],
          )
        ]
  ]
