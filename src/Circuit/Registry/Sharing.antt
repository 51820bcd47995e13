-- ===== src/Circuit/Registry/Sharing.antt =====
-- Which callers of the registry share a breaker.
use flyto_warroom.Prelude.{
  ℕ, ◌<◌, ◌≡◌, String, none, some, [], ◌∷◌, arith, length, get_elem?, str_eq, if◌then◌else◌, eq_iff,
  Option-cases, length-append, length-set, get_elem?-set_self, get_elem?-set_ne,
  get_elem?-append_left, get_elem?-snoc, get_elem?-some, inl, inr,
}
use flyto_warroom.Prelude.Dict.{lookup, lookup-insert}
use flyto_warroom.Circuit.{Config, new, default_config}
use flyto_warroom.Circuit.Invariant.{Op, step}
use flyto_warroom.Circuit.Registry.{
  Registry, new_registry, register, get, configure, call_at, breaker_of,
}

-- The pointers of the map lead somewhere, and no two names have the same one.
pub record IsSound (r : Registry) : Type 0 where
  pub in_heap : (name : String) (a : ℕ) → lookup name r.breakers ≡ some a → a < length r.heap
  pub unshared :
      (name other : String) (a : ℕ)
      → lookup name r.breakers ≡ some a
      → lookup other r.breakers ≡ some a
      → name ≡ other

pub new_registry-IsSound : IsSound new_registry
unfolding new_registry lookup
new_registry-IsSound = record {
  in_heap = λ name a e. absurd (cc);
  unshared = λ name other a e f. absurd (cc);
}

register-IsSound :
    (name : String) (cfg : Config) (r : Registry) → IsSound r → IsSound (register name cfg r).0
unfolding register
register-IsSound name cfg r v = record {
  in_heap = λ n a e. ground (
    arith,
    lookup-insert name n (length r.heap) r.breakers,
    v.in_heap n a,
    length-append r.heap (new cfg ∷ []),
  );
  unshared = λ n m a e f. ground (
    arith,
    lookup-insert name n (length r.heap) r.breakers,
    lookup-insert name m (length r.heap) r.breakers,
    v.in_heap n a,
    v.in_heap m a,
    v.unshared n m a,
    eq_iff name n,
    eq_iff name m,
  );
}

pub get-IsSound : (name : String) (r : Registry) → IsSound r → IsSound (get name r).0
unfolding get
get-IsSound name r v = elim (Option-cases (lookup name r.breakers)) [
  | inl e ↦ rw e (register-IsSound name (default_config name) r v)
  | inr (a, e) ↦ rw e v
]

pub configure-IsSound : (cfg : Config) (r : Registry) → IsSound r → IsSound (configure cfg r).0
unfolding configure
configure-IsSound cfg r v = register-IsSound cfg.name cfg r v

pub call_at-IsSound : (a : ℕ) (o : Op) (r : Registry) → IsSound r → IsSound (call_at a o r)
unfolding call_at
call_at-IsSound a o r v = elim (Option-cases (get_elem? r.heap a)) [
  | inl e ↦ rw (e, call_at) v
  | inr (b, e) ↦
      rw (e, call_at)
        (record {
          in_heap = λ n c f. omega (arith, length-set r.heap a (step o b), v.in_heap n c f);
          unshared = v.unshared;
        })
]

-- A second `Get` of a name changes nothing and returns the same breaker.
pub get_again : (name : String) (r : Registry) → get name (get name r).0 ≡ get name r
unfolding get
get_again name r =
    ground (arith, lookup-insert name name (length r.heap) r.breakers, eq_iff name name)

-- In a sound registry, `Get` of a name leaves every other name's breaker alone, and gives the name
-- a new breaker of the default configuration if it had none, or the one it had.
pub breaker_of-get :
    (name other : String) (r : Registry)
    → IsSound r
    → breaker_of other (get name r).0 ≡ (
        if str_eq name other
        then (elim (breaker_of name r) [
          | none ↦ some (new (default_config name))
          | some b ↦ some b
        ])
        else breaker_of other r)
unfolding breaker_of get
breaker_of-get name other r v = elim (Option-cases (lookup name r.breakers)) [
  | inl f ↦ elim (Option-cases (lookup other r.breakers)) [
    | inl g ↦ ground (
      arith,
      eq_iff name other,
      lookup-insert name other (length r.heap) r.breakers,
      get_elem?-snoc r.heap (new (default_config name)),
    )
    | inr (c, g) ↦ ground (
      arith,
      eq_iff name other,
      lookup-insert name other (length r.heap) r.breakers,
      get_elem?-append_left r.heap (new (default_config name) ∷ []) c (v.in_heap other c g),
    )
  ]
  | inr (c, f) ↦
      let (b, eb) = get_elem?-some r.heap c (v.in_heap name c f) in
      ground (arith, eq_iff name other, eb)
]

-- In a sound registry, a call through the pointer that `Get` gave for a name acts on that name's
-- breaker and on no other name's.
pub breaker_of-call_at :
    (name other : String) (a : ℕ) (o : Op) (r : Registry)
    → IsSound r
    → lookup name r.breakers ≡ some a
    → breaker_of other (call_at a o r) ≡ (
        if str_eq name other
        then (elim (breaker_of name r) [ none ↦ none | some b ↦ some (step o b) ])
        else breaker_of other r)
unfolding breaker_of call_at
breaker_of-call_at name other a o r v e =
    let (b, eb) = get_elem?-some r.heap a (v.in_heap name a e) in
    elim (Option-cases (lookup other r.breakers)) [
      | inl f ↦ ground (arith, eq_iff name other, eb)
      | inr (c, f) ↦ ground (
        arith,
        eb,
        eq_iff name other,
        get_elem?-set_self r.heap a (step o b) (v.in_heap name a e),
        get_elem?-set_ne r.heap a c (step o b),
        v.unshared name other a,
      )
    ]
