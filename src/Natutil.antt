-- ===== src/Natutil.antt =====
-- natutil/: how a node learns its public address from a peer (reflect.go), and what it makes of it
-- (detect.go). An address on the wire is its bytes; package net is a parameter.
pub mod Reflection
mod Examples
use Prim.Native.String.{String}
use text.Mathlib.Text.{◌==◌ as str_eq}
use gossip_mesh.Base.{
  ℕ, ◌==◌, Bool, true, false, not, Option, none, some, List, [], ◌∷◌, if◌then◌else◌,
}
use gossip_mesh.Transport.Dispatch.{msg_type_addr_reflect}

pub record NatStatus : Type 0 where
  pub public_addr : String
  pub is_natted : Bool
  pub is_relay : Bool

-- net.SplitHostPort's host, net.ParseIP, IsUnspecified, Equal, and whether an interface has the address.
pub record Net (I : Type 0) : Type 0 where
  pub host : String → String
  pub parse_ip : String → Option I
  pub unspecified : I → Bool
  pub same_ip : Option I → Option I → Bool
  pub on_interface : I → Bool

module _ {I : Type 0} (net : Net I) where
  abbrev pub is_local_ip : Option I → Bool
  is_local_ip none = false
  is_local_ip (some ip) = net.on_interface ip

  unfoldable pub detect_nat : String → String → NatStatus
  detect_nat bind_addr reflected_addr =
      let bind_ip : Option I = net.parse_ip (net.host bind_addr) in
      let reflected_ip : Option I = net.parse_ip (net.host reflected_addr) in
      let any_address : Bool = elim bind_ip [ none ↦ false | some ip ↦ net.unspecified ip ] in
      let own : Bool =
        if any_address then is_local_ip reflected_ip else net.same_ip bind_ip reflected_ip in
      if str_eq reflected_addr ""
      then record { public_addr = ""; is_natted = false; is_relay = false }
      else record { public_addr = reflected_addr; is_natted = not own; is_relay = own }

abbrev pub reflect_request : ℕ
reflect_request = 0

abbrev pub reflect_response : ℕ
reflect_response = 1

module _ (to_bytes : String → List ℕ) (of_bytes : List ℕ → String) where
  abbrev reply_to : String → List ℕ
  reply_to from = msg_type_addr_reflect ∷ reflect_response ∷ to_bytes from

  -- The handler that RegisterReflectHandler installs: the datagram that it sends back, if it sends one.
  unfoldable pub reflect : String → List ℕ → Option (List ℕ)
  reflect from [] = none
  reflect from (b ∷ rest) = if b == reflect_request then some (reply_to from) else none

  -- The handler of RequestReflection: what the channel of one address holds afterwards, and the reply.
  unfoldable pub reflect_waiting : Option String → String → List ℕ → Option String × Option (List ℕ)
  reflect_waiting result from [] = (result, none)
  reflect_waiting result from (b ∷ rest) =
      if b == reflect_request
      then (result, some (reply_to from))
      else if b == reflect_response
      then (elim result [ none ↦ some (of_bytes rest) | some addr ↦ some addr ], none)
      else (result, none)

abbrev pub reflection_request : List ℕ
reflection_request = msg_type_addr_reflect ∷ reflect_request ∷ []
