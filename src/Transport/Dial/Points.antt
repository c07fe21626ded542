-- ===== src/Transport/Dial/Points.antt =====
-- What is known at each point of a call, while no connection ends by itself (transport/transport.go).
use Prim.Native.String.{String}
use text.Mathlib.Text.{◌==◌ as str_eq}
use text.Mathlib.TextEquality.{eq_iff}
use gossip_mesh.Base.{
  ℕ, ◌==◌, ◌≡◌, ◌≢◌, ◌⊎◌, refl, sym, ap, ◌∙◌, true, false, Option, none, some, inl, inr,
  if◌then◌else◌, Bool-cases, Option-cases, ne_==,
}
use gossip_mesh.Base.Table.{string_key, lookup, insert, lookup-insert}
use gossip_mesh.Transport.{Transport}
use gossip_mesh.Transport.Pool.{start_accept_loop_keeps}
use gossip_mesh.Transport.Dial.{
  Pc, starting, looking, stale, missed, dialed, beaten, replacing, serving, returned, dial_step,
}

-- The table holds the connection for the address.
abbrev pub At : Transport → String → ℕ → Type 0
At t addr c = lookup addr t.app_conns ≡ some c

-- No entry of the table is this connection.
abbrev pub Absent : Transport → ℕ → Type 0
Absent t c = (a : String) → lookup a t.app_conns ≢ some c

-- Every connection of the table is alive.
abbrev pub IsLive : Transport → Type 0
IsLive t = (a : String) (c : ℕ) → At t a c → t.ended c ≡ false

-- A connection that the dial gives is alive and not in the table.
abbrev pub Fresh : Transport → Option ℕ → Type 0
Fresh t result = (c : ℕ) → result ≡ some c → Absent t c × (t.ended c ≡ false)

abbrev pub Point : String → Option ℕ → Transport → Pc → Type 0
Point addr result t starting = Fresh t result
Point addr result t (looking c) = At t addr c
Point addr result t (stale c) = ⊥
Point addr result t missed = Fresh t result
Point addr result t (dialed c) = (result ≡ some c) × Absent t c × (t.ended c ≡ false)
Point addr result t (beaten e c) = At t addr e × (result ≡ some c) × Absent t c
Point addr result t (replacing c) = ⊥
Point addr result t (serving c) = At t addr c
Point addr result t (returned none) = Unit
Point addr result t (returned (some c)) = At t addr c

-- What a step does to the table and to the connections: nothing, an entry more for the connection that
-- was dialled, or the end of that connection.
pub data Change (addr : String) (result : Option ℕ) (t t' : Transport) : Type 0 where
  same : t'.app_conns ≡ t.app_conns → t'.ended ≡ t.ended → Change addr result t t'
  inserted :
      (c : ℕ)
      → result ≡ some c
      → lookup addr t.app_conns ≡ none
      → t.ended c ≡ false
      → t'.app_conns ≡ insert addr c t.app_conns
      → t'.ended ≡ t.ended
      → Change addr result t t'
  finished :
      (c : ℕ)
      → result ≡ some c
      → Absent t c
      → t'.app_conns ≡ t.app_conns
      → ((d : ℕ) → t'.ended d ≡ (if d == c then true else t.ended d))
      → Change addr result t t'

pub dial_step-Change :
    (addr : String) (result : Option ℕ) (t : Transport) (pc : Pc)
    → IsLive t
    → Point addr result t pc
    → Change addr result t (dial_step addr result t pc).0
      × Point addr result (dial_step addr result t pc).0 (dial_step addr result t pc).1
unfolding dial_step
dial_step-Change addr result t starting live p = elim (Option-cases (lookup addr t.app_conns)) [
  | inl e ↦ rw (e, dial_step) (same refl refl, p)
  | inr (c, e) ↦ rw (e, dial_step) (same refl refl, e)
]
dial_step-Change addr result t (looking c) live p =
    rw (live addr c p, dial_step) (same refl refl, p)
dial_step-Change addr result t (stale c) live p = elim p [ ]
dial_step-Change addr result t missed live p = elim (Option-cases result) [
  | inl e ↦ rw (e, dial_step) (same refl refl, tt)
  | inr (c, e) ↦ rw (e, dial_step) (same refl refl, (refl, (p c e).0, (p c e).1))
]
dial_step-Change addr result t (dialed c) live (e, absent, alive) =
    elim (Option-cases (lookup addr t.app_conns)) [
      | inl free ↦
          rw (free, dial_step)
            (
              inserted c e free alive refl refl,
              lookup-insert addr addr c t.app_conns ∙ rw ((eq_iff addr addr).1 refl) refl,
            )
      | inr (d, taken) ↦ rw (taken, dial_step) (same refl refl, (taken, e, absent))
    ]
dial_step-Change addr result t (beaten d c) live (there, e, absent) =
    rw (live addr d there, dial_step) (finished c e absent refl (λ x. refl), there)
dial_step-Change addr result t (replacing c) live p = elim p [ ]
dial_step-Change addr result t (serving c) live p =
    let (table, ends) = start_accept_loop_keeps t c in (same table ends, rw table p)
dial_step-Change addr result t (returned none) live p = (same refl refl, tt)
dial_step-Change addr result t (returned (some c)) live p = (same refl refl, p)

pub At-keeps :
    (addr : String) (result : Option ℕ) (t t' : Transport) (a : String) (d : ℕ)
    → Change addr result t t'
    → At t a d
    → At t' a d
At-keeps addr result t t' a d (same table ends) p = rw table p
At-keeps addr result t t' a d (finished c e absent table ends) p = rw table p
At-keeps addr result t t' a d (inserted c e free alive table ends) p =
    rw (table, lookup-insert addr a c t.app_conns) (other (Bool-cases (str_eq addr a)))
  where
    other :
        (str_eq addr a ≡ true) ⊎ (str_eq addr a ≡ false)
        → (if str_eq addr a then some c else lookup a t.app_conns) ≡ some d
    other (inl hit) = cc (ap (λ x. lookup x t.app_conns) ((eq_iff addr a).0 hit), free, p)
    other (inr miss) = rw miss p

Absent-keeps :
    (addr : String) (result : Option ℕ) (t t' : Transport) (d : ℕ)
    → Change addr result t t'
    → result ≢ some d
    → Absent t d
    → Absent t' d
Absent-keeps addr result t t' d (same table ends) ne p a there = p a (rw table at there)
Absent-keeps addr result t t' d (finished c e absent table ends) ne p a there =
    p a (rw table at there)
Absent-keeps addr result t t' d (inserted c e free alive table ends) ne p a there =
    elim (Bool-cases (str_eq addr a)) [
      | inl hit ↦ ne (e ∙ rw (table, lookup-insert addr a c t.app_conns, hit) at there)
      | inr miss ↦ p a (rw (table, lookup-insert addr a c t.app_conns, miss) at there)
    ]

ended_keeps :
    (addr : String) (result : Option ℕ) (t t' : Transport) (d : ℕ)
    → Change addr result t t'
    → result ≢ some d
    → t.ended d ≡ false
    → t'.ended d ≡ false
ended_keeps addr result t t' d (same table ends) ne p = rw ends p
ended_keeps addr result t t' d (inserted c e free alive table ends) ne p = rw ends p
ended_keeps addr result t t' d (finished c e absent table ends) ne p =
    ends d ∙ rw (ne_== d c (λ q. ne (e ∙ ap some (sym q)))) p

pub IsLive-keeps :
    (addr : String) (result : Option ℕ) (t t' : Transport)
    → Change addr result t t'
    → IsLive t
    → IsLive t'
IsLive-keeps addr result t t' (same table ends) live a d p = rw ends (live a d (rw table at p))
IsLive-keeps addr result t t' (finished c e absent table ends) live a d p =
    let there : At t a d = rw table at p in
    ends d ∙ rw (ne_== d c (λ q. absent a (there ∙ ap some q))) (live a d there)
IsLive-keeps addr result t t' (inserted c e free alive table ends) live a d p =
    elim (Bool-cases (str_eq addr a)) [
      | inl hit ↦
          let new : some c ≡ some d = rw (table, lookup-insert addr a c t.app_conns, hit) at p in
          rw ends (cc (new, alive))
      | inr miss ↦ rw ends (live a d (rw (table, lookup-insert addr a c t.app_conns, miss) at p))
    ]

-- A step of one goroutine keeps what another one knows, whose dial gives another connection.
pub Point-keeps :
    (addr : String) (result : Option ℕ) (t t' : Transport) (a : String) (mine : Option ℕ) (pc : Pc)
    → Change addr result t t'
    → ((c : ℕ) → mine ≡ some c → result ≢ some c)
    → Point a mine t pc
    → Point a mine t' pc
Point-keeps addr result t t' a mine starting ch ne p = λ c e. (
  Absent-keeps addr result t t' c ch (ne c e) (p c e).0,
  ended_keeps addr result t t' c ch (ne c e) (p c e).1,
)
Point-keeps addr result t t' a mine (looking c) ch ne p = At-keeps addr result t t' a c ch p
Point-keeps addr result t t' a mine (stale c) ch ne p = p
Point-keeps addr result t t' a mine missed ch ne p = λ c e. (
  Absent-keeps addr result t t' c ch (ne c e) (p c e).0,
  ended_keeps addr result t t' c ch (ne c e) (p c e).1,
)
Point-keeps addr result t t' a mine (dialed c) ch ne (e, absent, alive) = (
  e,
  Absent-keeps addr result t t' c ch (ne c e) absent,
  ended_keeps addr result t t' c ch (ne c e) alive,
)
Point-keeps addr result t t' a mine (beaten d c) ch ne (there, e, absent) =
    (At-keeps addr result t t' a d ch there, e, Absent-keeps addr result t t' c ch (ne c e) absent)
Point-keeps addr result t t' a mine (replacing c) ch ne p = p
Point-keeps addr result t t' a mine (serving c) ch ne p = At-keeps addr result t t' a c ch p
Point-keeps addr result t t' a mine (returned none) ch ne p = tt
Point-keeps addr result t t' a mine (returned (some c)) ch ne p = At-keeps addr result t t' a c ch p
