-- ===== src/Discovery/Examples.antt =====
-- A node with two registered peers, of which one is a relay.
use gossip_mesh.Base.{subst, Option, List, none, ◌≡◌, refl, true, false, some, [], ◌∷◌, All}
use gossip_mesh.Bootstrap.{NodeRegistration, stamped}
use gossip_mesh.Discovery.Registered.{Registered}
use gossip_mesh.Discovery.{own_registration, Network}

abbrev pub hidden : NodeRegistration
hidden = record {
  node_id = "b";
  addrs = "10.0.0.2:7000" ∷ [];
  public_addr = "";
  is_relay = false;
  registered_at = 1;
}

abbrev pub helper : NodeRegistration
helper = record {
  node_id = "r";
  addrs = "198.51.100.9:7000" ∷ [];
  public_addr = "198.51.100.9:7001";
  is_relay = true;
  registered_at = 1;
}

-- Nothing but the relay answers.
abbrev pub behind_nat : Network (Unit {0})
behind_nat = record {
  discover = λ s. some (hidden ∷ helper ∷ []);
  alive = λ s id. false;
  join = λ s a. (s, false);
  punch = λ s p. (s, false);
  dial_relay = λ s a p. (s, true);
}

-- Both nodes have registered themselves, and no Join succeeds.
abbrev pub self_registered : Network (Unit {0})
self_registered = record behind_nat {
  discover = λ s. some (stamped 5 (own_registration "b" "10.0.0.2:7000" "10.0.0.2:7001") ∷ []);
}

abbrev listed : Option (List NodeRegistration) → List NodeRegistration
listed none = []
listed (some ps) = ps

pub Registered-always :
    (s : Unit {0}) (ps : List NodeRegistration)
    → self_registered.discover s ≡ some ps
    → All Registered ps
Registered-always s ps e =
    subst (λ o. All Registered (listed o)) e (("b", "10.0.0.2:7000", "10.0.0.2:7001", 5, refl), tt)
