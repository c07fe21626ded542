-- ===== src/Membership/Live.antt =====
-- The snapshot of LivePeers (membership/membership.go).
use Prim.Native.String.{String}
use text.Mathlib.Text.{◌==◌ as str_eq}
use gossip_mesh.Base.{◌≡◌, sym, subst, some, List, [], ◌∷◌, inl, inr, All, Any, Bool-cases, if-true}
use gossip_mesh.Base.Table.{string_key, lookup, Found, IsMap-Found}
use gossip_mesh.Membership.{
  PeerInfo, Services, Membership, Event, alive_of, live_peers, handle_events,
}
use gossip_mesh.Membership.View.{Own, IsTable, handle_events-IsTable}

-- What a range over the table does to its entries: each is visited, and nothing else.
pub record Visits {A : Type 0} (range : List A → List A) : Type 1 where
  pub each : (P : A → Type 0) (xs : List A) → All P xs → All P (range xs)
  pub every : (P : A → Type 0) (xs : List A) → Any P xs → Any P (range xs)

module _ {V C : Type 0} (sv : Services V C) where
  alive_of-Found :
      (m n : List (String × PeerInfo C))
      → All (Own sv) n
      → Found m n
      → All (λ (p : PeerInfo C). lookup p.node_id m ≡ some p) (alive_of sv n)
  alive_of-Found m [] own found = tt
  alive_of-Found m ((name, p) ∷ n) own found =
      if-true (All (λ (q : PeerInfo C). lookup q.node_id m ≡ some q)) p.alive (p ∷ alive_of sv n)
        (alive_of sv n) own.0.1
        (subst (λ id. lookup id m ≡ some p) (sym own.0.0) found.0, alive_of-Found m n own.1 found.1)

  alive_of-Any :
      (n : List (String × PeerInfo C)) (id : String) (p : PeerInfo C)
      → All (Own sv) n
      → lookup id n ≡ some p
      → Any (λ (q : PeerInfo C). q ≡ p) (alive_of sv n)
  unfolding lookup
  alive_of-Any [] id p own e = cc
  alive_of-Any ((name, q) ∷ n) id p own e =
      if-true (Any (λ (r : PeerInfo C). r ≡ p)) q.alive (q ∷ alive_of sv n) (alive_of sv n) own.0.1
        (elim (Bool-cases (str_eq name id)) [
          | inl s ↦ inl (some-inj (rw s at e))
          | inr s ↦ inr (alive_of-Any n id p own.1 (rw s at e))
        ])
    where
      some-inj : some q ≡ some p → q ≡ p
      some-inj h = cc

  pub live_peers-Found :
      (m : Membership V C)
      → Visits sv.range
      → IsTable sv m
      → All (λ (p : PeerInfo C). lookup p.node_id m.peers ≡ some p) (live_peers sv m)
  live_peers-Found m visits v =
      visits.each _ _ (alive_of-Found m.peers m.peers v.own (IsMap-Found m.peers v.one))

  -- If a range visits every entry and nothing else, the snapshot of LivePeers after any events has exactly
  -- the peers of the table: each is found under its node id, and each node found is in it.
  pub live_peers_lem :
      (m : Membership V C) (es : List Event)
      → Visits sv.range
      → IsTable sv m
      → let m' = (handle_events sv m es).0 in
        All (λ (p : PeerInfo C). lookup p.node_id m'.peers ≡ some p) (live_peers sv m')
        × ((id : String) (p : PeerInfo C)
            → lookup id m'.peers ≡ some p
            → Any (λ (q : PeerInfo C). q ≡ p) (live_peers sv m'))
  live_peers_lem m es visits v =
      let m' = (handle_events sv m es).0 in
      let v' : IsTable sv m' = handle_events-IsTable sv m es v in
      (
        live_peers-Found m' visits v',
        λ id p e. visits.every _ _ (alive_of-Any m'.peers id p v'.own e),
      )
