-- ===== src/Access/Complete.antt =====
-- `Require` against the list of what a request must meet.
use mathlib.Core.List.{Memᴰ}
use mathlib.Core.List.Memᴰ
use flyto_warroom.Prelude.{
  ◌≡◌, ◌≢◌, ◌↔◌, ◌⊎◌, inl, inr, sym, String, true, List, [], ◌∷◌, any, str_eq, arith, eq_iff,
  trim_space, Bool-cases,
}
use flyto_warroom.Access.{
  Request, ScopeType, scope_global, is_global, contains, sensitive, require,
  action_sensitive_evidence_read,
}

-- The Boolean search agrees with membership.
pub contains_iff :
    (items : List String) (want : String) → (contains items want ≡ true) ↔ Memᴰ want items
unfolding contains any
contains_iff [] want = (λ h. absurd (cc), λ m. elim m [ ])
contains_iff (x ∷ xs) want = (
  λ h. elim (Bool-cases (str_eq x want)) [
    | inl e ↦ Memᴰ.head (sym ((eq_iff x want).0 e))
    | inr e ↦ Memᴰ.tail ((contains_iff xs want).0 (rw e at h))
  ],
  λ m. elim (Memᴰ.cases_cons m) [
    | inl e ↦ ground (arith, eq_iff x want)
    | inr m' ↦ ground (arith, (contains_iff xs want).1 m')
  ],
)

-- What a request must meet.
pub record Demands (req : Request) : Type 0 where
  pub authenticated : trim_space req.principal.user_id ≢ ""
  pub scoped : (req.scope_type ≡ scope_global) ⊎ (trim_space req.scope_id ≢ "")
  pub has_feature : (req.required_feature ≡ "") ⊎ Memᴰ req.required_feature req.principal.features
  pub has_action : (req.action ≡ "") ⊎ Memᴰ req.action req.principal.permissions
  pub may_read_sensitive :
      sensitive req.resource.sensitivity ≡ true
      → Memᴰ action_sensitive_evidence_read req.principal.permissions

-- The demands that come before the one on sensitive evidence.
pub record BasicDemands (req : Request) : Type 0 where
  pub authenticated : trim_space req.principal.user_id ≢ ""
  pub scoped : (req.scope_type ≡ scope_global) ⊎ (trim_space req.scope_id ≢ "")
  pub has_feature : (req.required_feature ≡ "") ⊎ Memᴰ req.required_feature req.principal.features
  pub has_action : (req.action ≡ "") ⊎ Memᴰ req.action req.principal.permissions

is_global_iff : (t : ScopeType) → (is_global t ≡ true) ↔ (t ≡ scope_global)
is_global_iff scope_global = ground arith
is_global_iff _ = ground arith

module _ (req : Request) where
  -- A request is allowed exactly when it meets every demand.
  pub require_allows_iff : ((require req).allow ≡ true) ↔ Demands req
  unfolding require
  require_allows_iff = ground (
    arith,
    is_global_iff req.scope_type,
    eq_iff (trim_space req.principal.user_id) "",
    eq_iff (trim_space req.scope_id) "",
    eq_iff req.required_feature "",
    eq_iff req.action "",
    contains_iff req.principal.features req.required_feature,
    contains_iff req.principal.permissions req.action,
    contains_iff req.principal.permissions action_sensitive_evidence_read,
  )

  -- The decision asks for an audit exactly when the resource is sensitive and every demand before the
  -- one on sensitive evidence is met, whether the request is then allowed or denied.
  pub require_audits_iff :
      ((require req).audit_required ≡ true)
      ↔ (BasicDemands req × (sensitive req.resource.sensitivity ≡ true))
  unfolding require
  require_audits_iff = ground (
    arith,
    is_global_iff req.scope_type,
    eq_iff (trim_space req.principal.user_id) "",
    eq_iff (trim_space req.scope_id) "",
    eq_iff req.required_feature "",
    eq_iff req.action "",
    contains_iff req.principal.features req.required_feature,
    contains_iff req.principal.permissions req.action,
    contains_iff req.principal.permissions action_sensitive_evidence_read,
  )
