-- ===== src/Holepunch/Pair.antt =====
-- Two attempts of AttemptHolePunch (holepunch/punch.go) against each other over one object store, one call of
-- the store at a time: the write, each List and Get of ReadSignals, the List and each Delete of
-- CleanupSignal. The dial stands between the poll and the cleanup and does not use the store.
pub mod Points
pub mod Write
pub mod Steps
pub mod Runs
pub mod Starved
pub mod Rounds
use Prim.Native.String.{String}
use gossip_mesh.Base.{ℕ, Bool, Option, none, some, List, [], ◌∷◌, if◌then◌else◌}
use gossip_mesh.ObjectStore.{done, failed, not_found}
use gossip_mesh.Bootstrap.{ObjectStoreOps}
use gossip_mesh.Holepunch.{
  Signal, success, failure, signal_prefix, write_signal_for_peer, note_signal, PunchEnd,
  not_written, timed_out, dialing,
}

-- A node of the pair: SelfID, SelfAddr and the nonce of its attempt.
pub record Party : Type 0 where
  pub id : String
  pub addr : String
  pub nonce : String

-- Where an attempt stands: before the write, at the select, in the loop of ReadSignals with the keys that are
-- left and the signals found, before the deferred List, in the loop of CleanupSignal, or at its end.
pub data PunchPc : Type 0 where
  writing waiting : PunchPc
  reading : List String → Option Signal × Option Signal → PunchPc
  listing : PunchEnd → PunchPc
  deleting : List String → PunchEnd → PunchPc
  returned : PunchEnd → PunchPc

abbrev pub signal_of : Party → Signal
signal_of p = record { node_id = p.id; addr = p.addr; nonce = p.nonce; time = 0 }

pub record Attempts (S : Type 0) : Type 0 where
  pub store : S
  pub first : PunchPc
  pub second : PunchPc

-- A step: of the first attempt or of the second one, at this time, before the deadline or behind it.
pub record PunchEvent : Type 0 where
  pub of_first : Bool
  pub now : ℕ
  pub late : Bool

module _ {S : Type 0} (ops : ObjectStoreOps S) (marshal : Signal → Option (List ℕ))
    (unmarshal : List ℕ → Option Signal) where
  unfoldable pub punch_step : Party → String → ℕ → Bool → S → PunchPc → S × PunchPc
  punch_step p target_id now late s writing =
      let (s', written) =
        write_signal_for_peer ops marshal unmarshal now s p.id target_id (signal_of p) in
      (s', elim written [ success _ ↦ waiting | failure e ↦ returned (not_written e) ])
  punch_step p target_id now late s waiting =
      if late
      then (s, listing timed_out)
      else elim (ops.list_keys s (signal_prefix p.id target_id)) [
        | failed e ↦ (s, waiting)
        | done ks ↦ (s, reading ks (none, none))
      ]
  punch_step p target_id now late s (reading [] found) =
      (s, elim found.1 [ none ↦ waiting | some peer ↦ listing (dialing peer.addr) ])
  punch_step p target_id now late s (reading (key ∷ rest) found) = elim (ops.get_object s key) [
    | failed not_found ↦ (s, reading rest found)
    | failed e ↦ (s, waiting)
    | done (bytes, info) ↦ elim (unmarshal bytes) [
      | none ↦ (s, reading rest found)
      | some sig ↦ (s, reading rest (note_signal ops marshal unmarshal p.id target_id sig found))
    ]
  ]
  punch_step p target_id now late s (listing end) =
      elim (ops.list_keys s (signal_prefix p.id target_id)) [
        | failed e ↦ (s, returned end)
        | done ks ↦ (s, deleting ks end)
      ]
  punch_step p target_id now late s (deleting [] end) = (s, returned end)
  punch_step p target_id now late s (deleting (key ∷ rest) end) =
      ((ops.delete_key s key).0, deleting rest end)
  punch_step p target_id now late s (returned end) = (s, returned end)

  unfoldable pub attempts_step : Party → Party → PunchEvent → Attempts S → Attempts S
  attempts_step a b e r =
      if e.of_first
      then (let (s', pc) = punch_step a b.id e.now e.late r.store r.first in
          record { store = s'; first = pc; second = r.second })
      else (let (s', pc) = punch_step b a.id e.now e.late r.store r.second in
          record { store = s'; first = r.first; second = pc })

  unfoldable pub attempts_run : Party → Party → List PunchEvent → Attempts S → Attempts S
  attempts_run a b [] r = r
  attempts_run a b (e ∷ es) r = attempts_run a b es (attempts_step a b e r)
