-- ===== src/Holepunch/Attempt.antt =====
-- How AttemptHolePunch ends (holepunch/punch.go).
use Prim.Native.String.{String}
use gossip_mesh.Base.{ℕ, ◌≡◌, ◌⊎◌, refl, Option, none, some, List, [], ◌∷◌, inl, inr, All, Any}
use gossip_mesh.Base.Table.{string_key}
use gossip_mesh.Holepunch.{
  Signal, cleanup_signal, read_signals, poll, SignalResult, SignalError, success, failure,
  write_signal_for_peer, attempt_hole_punch, dialing, timed_out,
}
use gossip_mesh.Bootstrap.{ObjectStoreOps}

module _ {S : Type 0} (ops : ObjectStoreOps S) (marshal : Signal → Option (List ℕ))
    (unmarshal : List ℕ → Option Signal) where
  SignalResult-cases :
      (r : SignalResult (Option Signal × Option Signal))
      → ((o : Option Signal) × (p : Signal) × (r ≡ success (o, some p)))
        ⊎ (((o : Option Signal) × (r ≡ success (o, none))) ⊎ ((e : SignalError) × (r ≡ failure e)))
  SignalResult-cases (success (o, some p)) = inl (o, p, refl)
  SignalResult-cases (success (o, none)) = inr (inl (o, refl))
  SignalResult-cases (failure e) = inr (inr (e, refl))

  -- ReadSignals in this state of the store finds a signal of the peer with this address.
  abbrev pub Answered : String → String → String → S → Type 0
  Answered self_id target_id a s =
      (o : Option Signal) × (p : Signal) × (read_signals ops marshal unmarshal s self_id target_id
        ≡ success (o, some p))
      × (p.addr ≡ a)

  -- Where the poll stops: at the first state that answers, if there is one.
  pub poll_lem :
      (self_id target_id : String) (ss : List S)
      → ((p : Signal) × (poll ops marshal unmarshal self_id target_id ss ≡ some p)
          × Any (Answered self_id target_id p.addr) ss)
        ⊎ ((poll ops marshal unmarshal self_id target_id ss ≡ none)
            × All (λ s. (a : String) → Answered self_id target_id a s → ⊥) ss)
  unfolding poll
  poll_lem self_id target_id [] = inr (refl, tt)
  poll_lem self_id target_id (s ∷ ss) =
      elim (SignalResult-cases (read_signals ops marshal unmarshal s self_id target_id)) [
        | inl (o, p, e) ↦ inl (p, rw (e, poll) refl, inl (o, p, e, refl))
        | inr (inl (o, e)) ↦ elim (poll_lem self_id target_id ss) [
          | inl (p, found, there) ↦ inl (p, rw (e, poll) found, inr there)
          | inr (none_left, quiet) ↦
              inr (rw (e, poll) none_left, (λ a (o', p, found, _). cc (e, found), quiet))
        ]
        | inr (inr (x, e)) ↦ elim (poll_lem self_id target_id ss) [
          | inl (p, found, there) ↦ inl (p, rw (e, poll) found, inr there)
          | inr (none_left, quiet) ↦
              inr (rw (e, poll) none_left, (λ a (o', p, found, _). cc (e, found), quiet))
        ]
      ]

  -- How an attempt whose own signal was written ends: with a dial to the address of a signal of the peer that
  -- a tick found, or at the deadline, if no tick found one; in both cases the pair's signals are cleaned up.
  pub attempt_hole_punch_lem :
      (now : ℕ) (fresh : String) (around : S → List S × S) (s : S)
      (self_id target_id self_addr : String)
      → let own : Signal = record {
        node_id = self_id;
        addr = self_addr;
        nonce = fresh;
        time = 0;
      } in
        let wrote = write_signal_for_peer ops marshal unmarshal now s self_id target_id own in
        let (ticks, last) = around wrote.0 in
        let (left, end) =
          attempt_hole_punch ops marshal unmarshal now
            (some fresh)
            around
            s
            self_id
            target_id
            self_addr in
        wrote.1 ≡ success tt
        → (left ≡ (cleanup_signal ops marshal unmarshal last self_id target_id).0)
          × (((a : String) × (end ≡ dialing a) × Any (Answered self_id target_id a) ticks)
              ⊎ ((end ≡ timed_out)
                  × All (λ t. (a : String) → Answered self_id target_id a t → ⊥) ticks))
  unfolding attempt_hole_punch
  attempt_hole_punch_lem now fresh around s self_id target_id self_addr written =
      let own : Signal = record { node_id = self_id; addr = self_addr; nonce = fresh; time = 0 } in
      let wrote = write_signal_for_peer ops marshal unmarshal now s self_id target_id own in
      rw (written, attempt_hole_punch)
        (
          refl,
          elim (poll_lem self_id target_id (around wrote.0).0) [
            | inl (p, found, there) ↦ inl (p.addr, rw found refl, there)
            | inr (none_left, quiet) ↦ inr (rw none_left refl, quiet)
          ],
        )
