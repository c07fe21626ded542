-- ===== src/Natutil/Examples.antt =====
-- A node that a peer sees under another address, which goes over the wire as one byte.
use Prim.Native.String.{String}
use gossip_mesh.Base.{ℕ, List, [], ◌∷◌}

abbrev number_of : String → List ℕ
number_of a = 7 ∷ []

abbrev named_by : List ℕ → String
named_by bytes = "198.51.100.7:7001"
