-- ===== src/Circuit/Registry.antt =====
-- internal/circuit/registry.go: the map of named breakers. It holds pointers, so the breakers stand
-- on a store of their own, and the map holds their addresses in it.
pub mod Sharing
use flyto_warroom.Prelude.{
  ℕ, zero, suc, ◌+◌, ◌<◌, ◌≡◌, refl, String, Option, none, some, List, [], ◌∷◌, ◌++◌, map, arith,
  length, get_elem?, set, str_eq, if◌then◌else◌,
}
use flyto_warroom.Prelude.Dict.{Dict, lookup, insert, lookup-insert}
use flyto_warroom.Circuit.{State, Config, Breaker, new, default_config, allow}
use flyto_warroom.Circuit.Invariant.{Op, step}

pub record Registry : Type 0 where
  pub breakers : Dict ℕ
  pub heap : List Breaker

unfoldable pub new_registry : Registry
new_registry = record { breakers = []; heap = [] }

-- `New(cfg)` allocates, and the map's entry for `name` is made to point there.
register : String → Config → Registry → Registry × ℕ
register name cfg r =
    let address = length r.heap in
    (record { breakers = insert name address r.breakers; heap = r.heap ++ new cfg ∷ [] }, address)

get_found : String → Option ℕ → Registry → Registry × ℕ
unfolding register
get_found name (some address) r = (r, address)
get_found name none r = register name (default_config name) r

-- The registry and the address of the breaker that the caller keeps.
unfoldable pub get : String → Registry → Registry × ℕ
unfolding get_found
get name r = get_found name (lookup name r.breakers) r

unfoldable pub configure : Config → Registry → Registry × ℕ
unfolding register
configure cfg r = register cfg.name cfg r

state_at : List Breaker → ℕ → Option State
state_at heap address = elim (get_elem? heap address) [ none ↦ none | some b ↦ some b.state ]

-- A snapshot of every name with its breaker's state.
unfoldable pub all : Registry → List (String × Option State)
unfolding state_at
all r = map (λ (e : String × ℕ). (e.0, state_at r.heap e.1)) r.breakers

-- A method call through a kept pointer.
unfoldable pub call_at : ℕ → Op → Registry → Registry
call_at address o r = elim (get_elem? r.heap address) [
  | none ↦ r
  | some b ↦ record r { heap = set r.heap address (step o b) }
]

-- The breaker that a pointer of the map leads to.
unfoldable pub breaker_of : String → Registry → Option Breaker
breaker_of name r = elim (lookup name r.breakers) [
  | none ↦ none
  | some address ↦ get_elem? r.heap address
]
