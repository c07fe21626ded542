-- ===== src/Holepunch/Signals.antt =====
-- What ReadSignals finds (holepunch/signal.go).
use Prim.Native.String.{String, ◌++◌ as append}
use text.Mathlib.Text.{◌==◌ as str_eq, starts_with}
use text.Mathlib.TextEquality.{eq_iff}
use text.Mathlib.TextPositions.{starts_with-append}
use gossip_mesh.Base.{
  ℕ, ◌≡◌, ◌≢◌, ◌⊎◌, refl, sym, ap, subst, ◌∙◌, true, Option, none, some, List, [], ◌∷◌, inl, inr,
  Any, Bool-cases, Option-cases,
}
use gossip_mesh.Base.Strings.{str_lt-cases}
use gossip_mesh.ObjectStore.{
  MemoryObjectStore, ObjectInfo, StoreResult, done, failed, put, get, list,
}
use gossip_mesh.Bootstrap.{ObjectStoreOps}
use gossip_mesh.Bootstrap.Discovery.{StoreResult-cases}
use gossip_mesh.Bootstrap.Memory.{memory_ops, listed-put, Any-imp}
use gossip_mesh.ObjectStore.Conditional.{get-put}
use gossip_mesh.Holepunch.{
  Signal, SignalResult, success, failure, put_signal, write_under, write_signal_for_peer,
  signal_prefix, signal_key, note_signal, read_loop, read_signals, ordered_pair,
}

ordered_pair_symmetric : (a b : String) → ordered_pair a b ≡ ordered_pair b a
ordered_pair_symmetric a b = elim (str_lt-cases a b) [
  | inl (lt, ge) ↦ rw (lt, ge) refl
  | inr (inl (gt, le)) ↦ rw (gt, le) refl
  | inr (inr same) ↦ rw same refl
]

pub signal_prefix_symmetric : (a b : String) → signal_prefix a b ≡ signal_prefix b a
unfolding signal_prefix
signal_prefix_symmetric a b =
    ap (λ (p : String × String). append (append (append (append "signal/" p.0) "/") p.1) "/")
      (ordered_pair_symmetric a b)

pub starts_with-signal_key :
    (a b writer : String) → starts_with (signal_key a b writer) (signal_prefix a b) ≡ true
unfolding signal_prefix signal_key
starts_with-signal_key a b writer = starts_with-append (signal_prefix a b) writer

module _ {S : Type 0} (ops : ObjectStoreOps S) (marshal : Signal → Option (List ℕ))
    (unmarshal : List ℕ → Option Signal) (self_id target_id : String)
    (others : target_id ≢ self_id) where
  -- A signal of the target has been found.
  abbrev pub Peer : Option Signal → Type 0
  Peer o = (p : Signal) × (o ≡ some p) × (p.node_id ≡ target_id)

  -- The object under a key is a signal of the target.
  abbrev pub Sent : S → String → Type 0
  Sent s key =
      (bytes : List ℕ) × (info : ObjectInfo) × (sig : Signal) × (ops.get_object s key
        ≡ done (bytes, info))
      × (unmarshal bytes ≡ some sig)
      × (sig.node_id ≡ target_id)

  pub note_signal_keeps :
      (sig : Signal) (found : Option Signal × Option Signal)
      → Peer found.1
      → Peer (note_signal ops marshal unmarshal self_id target_id sig found).1
  note_signal_keeps sig found p = elim (Bool-cases (str_eq sig.node_id self_id)) [
    | inl own ↦ rw own p
    | inr other ↦ elim (Bool-cases (str_eq sig.node_id target_id)) [
      | inl mine ↦ rw (other, mine) (sig, refl, (eq_iff sig.node_id target_id).0 mine)
      | inr neither ↦ rw (other, neither) p
    ]
  ]

  pub note_signal_takes :
      (sig : Signal) (found : Option Signal × Option Signal)
      → sig.node_id ≡ target_id
      → Peer (note_signal ops marshal unmarshal self_id target_id sig found).1
  note_signal_takes sig found e = elim (Bool-cases (str_eq sig.node_id self_id)) [
    | inl own ↦ absurd (others (sym e ∙ (eq_iff sig.node_id self_id).0 own))
    | inr other ↦ rw (other, (eq_iff sig.node_id target_id).1 e) (sig, refl, e)
  ]

  -- The rest of the loop, after one key.
  read_loop_found :
      (s : S) (ks : List String) (found r : Option Signal × Option Signal)
      → read_loop ops marshal unmarshal self_id target_id s ks found ≡ success r
      → Peer found.1 ⊎ Any (Sent s) ks
      → Peer r.1
  unfolding read_loop
  read_loop_found s [] found r e (inl p) =
      subst (λ (x : Option Signal × Option Signal). Peer x.1) (success_same found r e) p
    where
      success_same : (x y : Option Signal × Option Signal) → success x ≡ success y → x ≡ y
      success_same x y h = cc
  read_loop_found s [] found r e (inr there) = elim there [ ]
  read_loop_found s (k ∷ ks) found r e h = elim (StoreResult-cases (ops.get_object s k)) [
    | inl (inl gone) ↦ read_loop_found s ks found r (rw (gone, read_loop) at e) (elim h [
      | inl p ↦ inl p
      | inr (inl (bytes, info, sig, got, _, _)) ↦ cc (gone, got)
      | inr (inr later) ↦ inr later
    ])
    | inl (inr refused) ↦ cc (rw (refused, read_loop) at e)
    | inr ((bytes, info), got) ↦ elim (Option-cases (unmarshal bytes)) [
      | inl bad ↦ read_loop_found s ks found r (rw (got, read_loop, bad) at e) (elim h [
        | inl p ↦ inl p
        | inr (inl (bytes', info', sig, got', read, _)) ↦ cc (got, got', bad, read)
        | inr (inr later) ↦ inr later
      ])
      | inr (x, good) ↦
          read_loop_found s ks (note_signal ops marshal unmarshal self_id target_id x found) r
            (rw (got, read_loop, good) at e)
            (elim h [
              | inl p ↦ inl (note_signal_keeps x found p)
              | inr (inl (bytes', info', sig, got', read, from)) ↦
                  inl (note_signal_takes x found (cc (got, got', good, read, from)))
              | inr (inr later) ↦ inr later
            ])
    ]
  ]

  pub read_signals_found :
      (s : S) (ks : List String) (r : Option Signal × Option Signal)
      → ops.list_keys s (signal_prefix self_id target_id) ≡ done ks
      → read_signals ops marshal unmarshal s self_id target_id ≡ success r
      → Any (Sent s) ks
      → Peer r.1
  unfolding read_signals
  read_signals_found s ks r listed e there =
      read_loop_found s ks (none, none) r (rw (listed, read_signals) at e) (inr there)

module _ (sprint_version : ℕ → String) (sort_strings : List String → List String)
    (sorts : (k : String) (ks : List String)
      → Any (λ j. j ≡ k) ks
      → Any (λ j. j ≡ k) (sort_strings ks)) where
  put_of_success :
      (marshal : Signal → Option (List ℕ)) (unmarshal : List ℕ → Option Signal) (now : ℕ)
      (s s' : MemoryObjectStore) (key : String) (sig : Signal) (bytes : List ℕ)
      → marshal (record sig { time = now }) ≡ some bytes
      → write_under (memory_ops sprint_version sort_strings) marshal unmarshal now s key sig
        ≡ (s', success tt)
      → (info : ObjectInfo) × (put sprint_version s key bytes [] ≡ (s', done info))
  unfolding write_under
  put_of_success marshal unmarshal now s s' key sig bytes written e =
      stored (put sprint_version s key bytes []) refl (rw (written, write_under) at e)
    where
      stored :
          (result : MemoryObjectStore × StoreResult ObjectInfo)
          → put sprint_version s key bytes [] ≡ result
          → ◌≡◌ {A = MemoryObjectStore × SignalResult (Unit {0})}
              (
                result.0,
                elim result.1 as (λ x. SignalResult (Unit {0})) [
                  | done info ↦ success tt
                  | failed why ↦ failure (put_signal why)
                ],
              )
              (s', success tt)
          → (info : ObjectInfo) × (put sprint_version s key bytes [] ≡ (s', done info))
      stored (t, done info) p h = (info, p ∙ ap (λ x. (x.0, done info)) h)
      stored (t, failed why) p h = cc h

  -- A signal reaches the peer, whichever of the two node ids is the lower: if a node's WriteSignalForPeer
  -- returned no error, its bytes read back as the signal, the two nodes are not the same and the sort keeps
  -- the keys, then a ReadSignals of the peer that succeeds finds a signal of the node.
  pub read_signals-write_signal_for_peer :
      (marshal : Signal → Option (List ℕ)) (unmarshal : List ℕ → Option Signal) (now : ℕ)
      (s s' : MemoryObjectStore) (writer reader : String) (sig : Signal) (bytes : List ℕ)
      (r : Option Signal × Option Signal)
      → let ops = memory_ops sprint_version sort_strings in
        writer ≢ reader
        → sig.node_id ≡ writer
        → marshal (record sig { time = now }) ≡ some bytes
        → unmarshal bytes ≡ some (record sig { time = now })
        → write_signal_for_peer ops marshal unmarshal now s writer reader sig ≡ (s', success tt)
        → read_signals ops marshal unmarshal s' reader writer ≡ success r
        → (p : Signal) × (r.1 ≡ some p) × (p.node_id ≡ writer)
  read_signals-write_signal_for_peer marshal unmarshal now s s' writer reader sig bytes r other mine
        written readable e found =
      let ops = memory_ops sprint_version sort_strings in
      let key = signal_key writer reader writer in
      let (info, stored) = put_of_success marshal unmarshal now s s' key sig bytes written e in
      let there : get s' key ≡ done (bytes, info) =
        get-put sprint_version s key key bytes [] s' info stored
        ∙ rw ((eq_iff key key).1 refl) refl in
      let under : starts_with key (signal_prefix reader writer) ≡ true =
        ap (starts_with key) (signal_prefix_symmetric reader writer)
        ∙ starts_with-signal_key writer reader writer in
      read_signals_found ops marshal unmarshal reader writer other s'
        (list sort_strings s' (signal_prefix reader writer)) r refl found
        (Any-imp (λ j. j ≡ key) (Sent ops marshal unmarshal reader writer other s')
          (list sort_strings s' (signal_prefix reader writer))
          (λ k same. (bytes, info, record sig { time = now }, rw same there, readable, mine))
          (listed-put sprint_version sort_strings sorts s (signal_prefix reader writer) key bytes s'
            info under stored))
