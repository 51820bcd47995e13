-- ===== src/Entitlement/Roles.antt =====
-- `resolveRolePerms`: the permissions of a role and of those that it inherits from, with a guard against a
-- cycle in the matrix. The rounds of the recursion are an argument.
use flyto_warroom.Prelude.{
  ℕ, zero, suc, ◌≤◌, ◌<◌, ◌≡◌, ◌≢◌, refl, sym, ◌∙◌, String, Bool, true, false, not, ◌||◌, ◌⊎◌, inl,
  inr, Option, none, some, List, [], ◌∷◌, ◌++◌, ◌&&◌, ◌↔◌, arith, any, select, length,
  length-select-le, str_eq, if◌then◌else◌, eq_iff, Bool-cases, Option-cases,
}
use mathlib.Core.Path.{subst}
use flyto_warroom.Prelude.Dict.{Dict, lookup}
use flyto_warroom.Entitlement.{RoleConfig, has_value, dedupe, has_value-dedupe}

-- What a role adds to what it inherits.
unfoldable pub with_inherited : RoleConfig → Option (List String) → Option (List String)
with_inherited cfg none = none
with_inherited cfg (some inherited) = some (dedupe (cfg.permissions ++ inherited))

unfoldable pub role_perms :
    ℕ → Dict RoleConfig → (role : String) → (seen : List String) → Option (List String)
unfolding with_inherited
role_perms zero roles role seen = none
role_perms (suc n) roles role seen =
    if has_value seen role then some [] else elim (lookup role roles) [
      | none ↦ some []
      | some cfg ↦
          let rest = role_perms n roles cfg.inherits (role ∷ seen) in
          with_inherited cfg (if str_eq cfg.inherits "" then some [] else rest)
    ]

-- The role, or one that it inherits from in fewer than so many steps, lists the permission.
unfoldable pub grants_by : ℕ → Dict RoleConfig → (role permission : String) → Bool
grants_by zero roles role p = false
grants_by (suc k) roles role p = elim (lookup role roles) [
  | none ↦ false
  | some cfg ↦
      let above = grants_by k roles cfg.inherits p in
      has_value cfg.permissions p || not (str_eq cfg.inherits "") && above
]

-- The roles of the matrix that the walk has not met.
some_eq : {A : Type 0} {x y : A} → some x ≡ some y → x ≡ y
some_eq e = ground arith

unseen : List String → Dict RoleConfig → ℕ
unseen seen roles = length (select (λ e. not (has_value seen e.0)) roles)

unseen-le :
    (role : String) (seen : List String) (roles : Dict RoleConfig)
    → unseen (role ∷ seen) roles ≤ unseen seen roles
unfolding unseen select has_value any
unseen-le role seen [] = omega arith
unseen-le role seen ((k, cfg) ∷ roles) = ground (arith, unseen-le role seen roles)

unseen-lt :
    (role : String) (seen : List String) (roles : Dict RoleConfig) (cfg : RoleConfig)
    → lookup role roles ≡ some cfg
    → has_value seen role ≡ false
    → unseen (role ∷ seen) roles < unseen seen roles
unfolding unseen select has_value any lookup
unseen-lt role seen [] cfg e h = absurd (cc e)
unseen-lt role seen ((k, other) ∷ roles) cfg e h =
    ground (
      arith,
      unseen-le role seen roles,
      unseen-lt role seen roles cfg,
      eq_iff k role,
      eq_iff role k,
    )

-- Enough rounds: one more than the roles that are left to meet.
role_perms-some :
    (n : ℕ) (roles : Dict RoleConfig) (role : String) (seen : List String)
    → unseen seen roles < n
    → (ps : List String) × (role_perms n roles role seen ≡ some ps)
unfolding role_perms with_inherited
role_perms-some zero roles role seen h = absurd (omega (arith, h))
role_perms-some (suc n) roles role seen h = elim (Bool-cases (has_value seen role)) [
  | inl e ↦ ([], rw (e, role_perms) refl)
  | inr e ↦ elim (Option-cases (lookup role roles)) [
    | inl q ↦ ([], rw (e, q, role_perms) refl)
    | inr (cfg, q) ↦
        let (ps, r) =
          role_perms-some n roles cfg.inherits (role ∷ seen)
            (omega (arith, h, unseen-lt role seen roles cfg q e)) in
        elim (Bool-cases (str_eq cfg.inherits "")) [
          | inl top ↦ (dedupe (cfg.permissions ++ []), rw (e, q, top, role_perms) refl)
          | inr top ↦ (dedupe (cfg.permissions ++ ps), rw (e, q, top, r, role_perms) refl)
        ]
  ]
]

unseen-all-le : (seen : List String) (roles : Dict RoleConfig) → unseen seen roles ≤ length roles
unfolding unseen
unseen-all-le seen roles = length-select-le _ roles

-- The walk over the roles ends, whatever cycles the matrix has: with one round more than the matrix has
-- entries it returns.
pub role_perms_end :
    (roles : Dict RoleConfig) (role : String)
    → (ps : List String) × (role_perms (suc (length roles)) roles role [] ≡ some ps)
role_perms_end roles role =
    role_perms-some (suc (length roles)) roles role [] (omega (arith, unseen-all-le [] roles))

has_value-append :
    (xs ys : List String) (v : String) → has_value (xs ++ ys) v ≡ (has_value xs v || has_value ys v)
unfolding has_value any
has_value-append [] ys v = refl
has_value-append (x ∷ xs) ys v = ground (arith, has_value-append xs ys v)

-- What a role that is new to the walk gets.
with_inherited-value :
    (cfg : RoleConfig) (o : Option (List String)) (ps : List String) (p : String)
    → with_inherited cfg o ≡ some ps
    → (qs : List String) × (o ≡ some qs)
      × (has_value ps p ≡ (has_value cfg.permissions p || has_value qs p))
unfolding with_inherited
with_inherited-value cfg none ps p e = absurd (cc e)
with_inherited-value cfg (some qs) ps p e = (
  qs,
  refl,
  subst (λ xs. has_value xs p ≡ (has_value cfg.permissions p || has_value qs p)) (some_eq e)
      (has_value-dedupe (cfg.permissions ++ qs) p ∙ has_value-append cfg.permissions qs p),
)

empty-value : (ps : List String) (p : String) → some [] ≡ some ps → has_value ps p ≢ true
unfolding has_value any
empty-value ps p e h = cc (subst (λ xs. has_value xs p ≡ true) (sym (some_eq e)) h)

-- Whatever the walk returns is granted.
role_perms_sound :
    (n : ℕ) (roles : Dict RoleConfig) (role : String) (seen ps : List String) (p : String)
    → role_perms n roles role seen ≡ some ps
    → has_value ps p ≡ true
    → grants_by n roles role p ≡ true
unfolding role_perms grants_by
role_perms_sound zero roles role seen ps p e h = absurd (cc e)
role_perms_sound (suc n) roles role seen ps p e h = elim (Bool-cases (has_value seen role)) [
  | inl met ↦ absurd (empty-value ps p (rw (met, role_perms) at e) h)
  | inr new ↦ elim (Option-cases (lookup role roles)) [
    | inl q ↦ absurd (empty-value ps p (rw (new, q, role_perms) at e) h)
    | inr (cfg, q) ↦
        let (qs, r, v) = with_inherited-value cfg _ ps p (rw (new, q, role_perms) at e) in
        elim (Bool-cases (str_eq cfg.inherits "")) [
          | inl top ↦
              let none_above = empty-value qs p (rw top at r) in
              rw (q, grants_by) (ground (arith, none_above, v))
          | inr top ↦
              let above = role_perms_sound n roles cfg.inherits (role ∷ seen) qs p (rw top at r) in
              rw (q, grants_by) (ground (arith, above, v))
        ]
  ]
]

grants_by_mono :
    (k : ℕ) (roles : Dict RoleConfig) (role p : String)
    → grants_by k roles role p ≡ true
    → grants_by (suc k) roles role p ≡ true
unfolding grants_by
grants_by_mono zero roles role p h = absurd (cc h)
grants_by_mono (suc k) roles role p h = elim (Option-cases (lookup role roles)) [
  | inl q ↦ absurd (cc (rw (q, grants_by) at h))
  | inr (cfg, q) ↦
      let above = grants_by_mono k roles cfg.inherits p in
      let here = rw (q, grants_by) at h in rw (q, grants_by) (ground (arith, above, here))
]

any_mono :
    (k : ℕ) (roles : Dict RoleConfig) (p : String) (seen : List String)
    → any (λ s. grants_by k roles s p) seen ≡ true
    → any (λ s. grants_by (suc k) roles s p) seen ≡ true
unfolding any
any_mono k roles p [] h = absurd (cc h)
any_mono k roles p (s ∷ seen) h =
    let here = grants_by_mono k roles s p in ground (arith, any_mono k roles p seen, here)

any-of :
    (k : ℕ) (roles : Dict RoleConfig) (role p : String) (seen : List String)
    → has_value seen role ≡ true
    → grants_by k roles role p ≡ true
    → any (λ s. grants_by k roles s p) seen ≡ true
unfolding any has_value
any-of k roles role p [] m h = absurd (cc m)
any-of k roles role p (s ∷ seen) m h =
    let same = eq_iff s role in ground (arith, any-of k roles role p seen, same)

-- A permission that is granted is returned, or one of the roles that the walk has met has it.
role_perms_complete :
    (k n : ℕ) (roles : Dict RoleConfig) (role : String) (seen ps : List String) (p : String)
    → role_perms n roles role seen ≡ some ps
    → grants_by k roles role p ≡ true
    → (has_value ps p ≡ true) ⊎ (any (λ s. grants_by k roles s p) seen ≡ true)
unfolding role_perms grants_by any
role_perms_complete zero n roles role seen ps p e h = absurd (cc h)
role_perms_complete (suc k) zero roles role seen ps p e h = absurd (cc e)
role_perms_complete (suc k) (suc n) roles role seen ps p e h =
    elim (Bool-cases (has_value seen role)) [
      | inl met ↦ inr (any-of (suc k) roles role p seen met h)
      | inr new ↦ elim (Option-cases (lookup role roles)) [
        | inl q ↦ absurd (cc (rw (q, grants_by) at h))
        | inr (cfg, q) ↦
            let (qs, r, v) = with_inherited-value cfg _ ps p (rw (new, q, role_perms) at e) in
            let here = rw (q, grants_by) at h in
            elim (Bool-cases (has_value cfg.permissions p)) [
              | inl own ↦ inl (ground (arith, own, v))
              | inr not_own ↦ elim (Bool-cases (str_eq cfg.inherits "")) [
                | inl top ↦ absurd (ground (arith, not_own, top, here))
                | inr top ↦
                    elim (role_perms_complete k n roles cfg.inherits (role ∷ seen) qs p
                      (rw top at r) (ground (arith, not_own, here))) [
                        | inl found ↦ inl (ground (arith, found, v))
                        | inr met ↦ elim (Bool-cases (grants_by k roles role p)) [
                          | inl g ↦ elim (role_perms_complete k (suc n) roles role seen ps p e g) [
                            | inl found ↦ inl found
                            | inr above ↦ inr (any_mono k roles p seen above)
                          ]
                          | inr g ↦ inr (any_mono k roles p seen (ground (arith, met, g)))
                        ]
                      ]
              ]
            ]
      ]
    ]

-- The permissions of a role are exactly those that it, or a role above it at any distance, lists.
pub role_perms_exact :
    (roles : Dict RoleConfig) (role : String) (ps : List String) (p : String)
    → role_perms (suc (length roles)) roles role [] ≡ some ps
    → (has_value ps p ≡ true) ↔ ((k : ℕ) × (grants_by k roles role p ≡ true))
unfolding any
role_perms_exact roles role ps p e = (
  (λ h. (suc (length roles), role_perms_sound (suc (length roles)) roles role [] ps p e h)),
  (λ g. elim (role_perms_complete g.0 (suc (length roles)) roles role [] ps p e g.1) [
    | inl found ↦ found
    | inr met ↦ absurd (cc met)
  ]),
)
