-- ===== src/Permission/Access.antt =====
-- Who may reach a resource: `ResolveAccess` against a description that names no permission list.
use mathlib.Core.Path.{subst}
use flyto_warroom.Prelude.{
  ◌≡◌, ◌↔◌, ◌⊎◌, inl, inr, refl, String, Bool, true, false, arith, any, eq_iff, ◌≤◌, str_eq, List,
  [], ◌∷◌, ◌&&◌, Bool-cases,
}
use flyto_warroom.Permission.{
  Role, owner, admin, member, guest, Visibility, workspace, project, private, restricted,
  Sensitivity, confidential, secret, AccessRequest, role_hierarchy, role_permissions,
  has_permission, resolve_access, Gate, pass, stop, visibility_gate, sensitivity_gate,
  after_visibility,
}

-- The roles of the workspace's hierarchy.
abbrev pub IsDeclared : Role → Type 0
IsDeclared (Role.other s) = ⊥
IsDeclared owner = Unit {0}
IsDeclared _ = Unit {0}

-- The audience of a visibility. A string that is no declared visibility has everybody for its
-- audience.
abbrev pub InAudience : Visibility → Role → (is_member is_owner : Bool) → Type 0
InAudience workspace role is_member is_owner = IsDeclared role
InAudience project role is_member is_owner = is_member ≡ true
InAudience private role is_member is_owner = is_owner ≡ true
InAudience restricted role is_member is_owner = is_owner ≡ true
InAudience _ role is_member is_owner = Unit {0}

-- The audience of the request's resource includes the one who asks.
abbrev pub Reaches : Visibility → AccessRequest → Type 0
Reaches v req = InAudience v req.user_role req.is_project_member req.is_owner

abbrev pub HasClearance : Sensitivity → Role → Type 0
HasClearance confidential role = (role ≡ owner) ⊎ (role ≡ admin)
HasClearance secret role = role ≡ owner
HasClearance _ role = Unit {0}

abbrev pub is_classified : Sensitivity → Bool
is_classified confidential = true
is_classified secret = true
is_classified _ = false

abbrev views_confidential : Role → Bool
views_confidential owner = true
views_confidential admin = true
views_confidential _ = false

abbrev views_secret : Role → Bool
views_secret owner = true
views_secret _ = false

pub confidential_viewers :
    (r : Role) → has_permission r "resource.view_confidential" ≡ views_confidential r
unfolding has_permission role_permissions any
confidential_viewers owner = refl
confidential_viewers _ = refl

pub secret_viewers : (r : Role) → has_permission r "resource.view_secret" ≡ views_secret r
unfolding has_permission role_permissions any
secret_viewers owner = refl
secret_viewers _ = refl

IsDeclared-rank : (r : Role) → IsDeclared r ↔ (1 ≤ role_hierarchy r)
unfolding role_hierarchy
IsDeclared-rank owner = omega arith
IsDeclared-rank (Role.other s) = omega arith
IsDeclared-rank _ = omega arith

gate_passes :
    (v : Visibility) (req : AccessRequest) → (visibility_gate v req ≡ pass) ↔ Reaches v req
unfolding visibility_gate
gate_passes workspace req = ground (arith, IsDeclared-rank req.user_role)
gate_passes _ req = ground arith

clearance_grants :
    (s : Sensitivity) (req : AccessRequest)
    → ((sensitivity_gate s req).can_access ≡ true) ↔ HasClearance s req.user_role
unfolding sensitivity_gate
clearance_grants confidential req = ground (arith, confidential_viewers req.user_role)
clearance_grants secret req = ground (arith, secret_viewers req.user_role)
clearance_grants _ req = ground arith

audit_of_gate :
    (s : Sensitivity) (req : AccessRequest)
    → (sensitivity_gate s req).audit_required ≡ is_classified s
unfolding sensitivity_gate
audit_of_gate confidential req = ground arith
audit_of_gate _ req = ground arith

Gate-cases : (g : Gate) → (g ≡ pass) ⊎ ((reason : String) × (g ≡ stop reason))
Gate-cases pass = inl refl
Gate-cases (stop reason) = inr (reason, refl)

-- The check grants access exactly to those in the audience of the visibility who have clearance for
-- the sensitivity: owners and admins for confidential resources, owners alone for secret ones.
pub resolve_access_iff :
    (req : AccessRequest)
    → ((resolve_access req).can_access ≡ true)
      ↔ (Reaches req.visibility req × HasClearance req.sensitivity req.user_role)
unfolding resolve_access
resolve_access_iff req = elim (Gate-cases (visibility_gate req.visibility req)) [
  | inl e ↦
      let (to, from) = gate_passes req.visibility req in
      let (to', from') = clearance_grants req.sensitivity req in
      rw (e, after_visibility) (λ h. (to e, to' h), λ h. from' h.1)
  | inr (reason, e) ↦
      let (to, from) = gate_passes req.visibility req in
      rw (e, after_visibility) (λ h. absurd (cc), λ h. absurd (cc (from h.0)))
]

-- An audit is required exactly when the request passes the visibility gate of a confidential or
-- secret resource, whether or not it is then granted.
pub audit_required_iff :
    (req : AccessRequest)
    → ((resolve_access req).audit_required ≡ true)
      ↔ (Reaches req.visibility req × (is_classified req.sensitivity ≡ true))
unfolding resolve_access
audit_required_iff req = elim (Gate-cases (visibility_gate req.visibility req)) [
  | inl e ↦
      let (to, from) = gate_passes req.visibility req in
      rw (e, after_visibility, audit_of_gate) (λ h. (to e, h), λ h. h.1)
  | inr (reason, e) ↦
      let (to, from) = gate_passes req.visibility req in
      rw (e, after_visibility) (λ h. absurd (cc), λ h. absurd (cc (from h.0)))
]

abbrev holds_all : List String → List String → Bool
holds_all [] held = true
holds_all (p ∷ ps) held = any (λ q. str_eq q p) held && holds_all ps held

any_holds :
    (ps held : List String) (perm : String)
    → holds_all ps held ≡ true
    → any (λ p. str_eq p perm) ps ≡ true
    → any (λ p. str_eq p perm) held ≡ true
unfolding any
any_holds [] held perm all h = absurd (cc)
any_holds (p ∷ ps) held perm all h = elim (Bool-cases (str_eq p perm)) [
  | inl e ↦
      subst (λ (q : String). any (λ p'. str_eq p' q) held ≡ true) ((eq_iff p perm).0 e)
        (ground arith)
  | inr e ↦ any_holds ps held perm (ground arith) (ground arith)
]

-- The permissions of guests, members, admins and owners form a chain: each has all those of the one
-- before.
pub has_permission_chain :
    (perm : String)
    → (has_permission guest perm ≡ true → has_permission member perm ≡ true)
      × (has_permission member perm ≡ true → has_permission admin perm ≡ true)
      × (has_permission admin perm ≡ true → has_permission owner perm ≡ true)
unfolding has_permission
has_permission_chain perm = (
  any_holds (role_permissions guest) (role_permissions member) perm
      (unfold role_permissions any in refl),
  any_holds (role_permissions member) (role_permissions admin) perm
      (unfold role_permissions any in refl),
  any_holds (role_permissions admin) (role_permissions owner) perm
      (unfold role_permissions any in refl),
)
