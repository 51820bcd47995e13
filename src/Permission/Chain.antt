-- ===== src/Permission/Chain.antt =====
-- The cascade: what the effective policy is, and when an inner layer can grant what an outer denied.
use mathlib.Core.Path.{subst}
use flyto_warroom.Prelude.{
  ℕ, zero, suc, ◌<◌, Bool-cases, inl, inr, ◌≡◌, ◌⊎◌, true, false, arith, max, if◌then◌else◌,
}
use flyto_warroom.Permission.{
  Role, Visibility, workspace, project, private, restricted, Sensitivity, confidential, secret,
  AccessRequest, resolve_access,
}
use flyto_warroom.Permission.Inherit.{
  LayerPolicy, EffectivePolicy, PolicyChain, visibility_rank, sensitivity_rank, default_visibility,
  default_sensitivity, visibility_set, sensitivity_set, narrow, resolve, AccessRequestChain,
  resolve_access_chain,
}
use flyto_warroom.Permission.Access.{IsDeclared, InAudience, HasClearance, resolve_access_iff}

-- What an inner layer adds to the rank; a layer that sets nothing adds nothing.
abbrev pub declared_visibility_rank : Visibility → ℕ
declared_visibility_rank v = if visibility_set v then visibility_rank v else 0

abbrev pub declared_sensitivity_rank : Sensitivity → ℕ
declared_sensitivity_rank s = if sensitivity_set s then sensitivity_rank s else 0

narrow_ranks :
    (eff : EffectivePolicy) (layer : LayerPolicy)
    → (visibility_rank (narrow eff layer).visibility
        ≡ max (visibility_rank eff.visibility) (declared_visibility_rank layer.visibility))
      × (sensitivity_rank (narrow eff layer).sensitivity
          ≡ max (sensitivity_rank eff.sensitivity) (declared_sensitivity_rank layer.sensitivity))
unfolding narrow
narrow_ranks eff layer = ground arith

-- The effective policy has the highest rank of visibility, and the highest of sensitivity, that any
-- layer declares; the workspace's defaults count as declared, and unset inner layers do not count.
pub resolve_ranks :
    (c : PolicyChain)
    → (visibility_rank (resolve c).visibility
        ≡ max (visibility_rank (default_visibility c.workspace_layer.visibility)) (
            max (declared_visibility_rank c.project_layer.visibility) (
              max
                (declared_visibility_rank c.folder_layer.visibility)
                (declared_visibility_rank c.resource_layer.visibility))))
      × (sensitivity_rank (resolve c).sensitivity
          ≡ max (sensitivity_rank (default_sensitivity c.workspace_layer.sensitivity)) (
              max (declared_sensitivity_rank c.project_layer.sensitivity) (
                max
                  (declared_sensitivity_rank c.folder_layer.sensitivity)
                  (declared_sensitivity_rank c.resource_layer.sensitivity))))
unfolding resolve
resolve_ranks c =
    let start : EffectivePolicy = record {
      visibility = default_visibility c.workspace_layer.visibility;
      sensitivity = default_sensitivity c.workspace_layer.sensitivity;
    } in
    omega (
      arith,
      narrow_ranks start c.project_layer,
      narrow_ranks (narrow start c.project_layer) c.folder_layer,
      narrow_ranks (narrow (narrow start c.project_layer) c.folder_layer) c.resource_layer,
    )

-- An owner of the resource is a member of its project, and a member of the project has a role in the
-- workspace.
pub record IsCoherent (req : AccessRequestChain) : Type 0 where
  pub owner_is_member : req.is_owner ≡ true → req.is_project_member ≡ true
  pub member_has_role : req.is_project_member ≡ true → IsDeclared req.user_role

abbrev pub with_policy : AccessRequestChain → EffectivePolicy → AccessRequest
with_policy req eff = record {
  user_role = req.user_role;
  visibility = eff.visibility;
  sensitivity = eff.sensitivity;
  is_project_member = req.is_project_member;
  is_owner = req.is_owner;
}

audience_narrows :
    (v w : Visibility) (req : AccessRequestChain)
    → IsCoherent req
    → visibility_rank v < visibility_rank w
    → InAudience w req.user_role req.is_project_member req.is_owner
    → InAudience v req.user_role req.is_project_member req.is_owner
unfolding visibility_rank
audience_narrows workspace project req co lt h = co.member_has_role h
audience_narrows workspace private req co lt h = co.member_has_role (co.owner_is_member h)
audience_narrows workspace restricted req co lt h = co.member_has_role (co.owner_is_member h)
audience_narrows workspace _ req co lt h = absurd (omega arith)
audience_narrows project w req co lt h = ground arith
audience_narrows private w req co lt h = ground arith
audience_narrows restricted w req co lt h = ground arith
audience_narrows _ w req co lt h = tt

clearance_narrows :
    (s t : Sensitivity) (r : Role)
    → sensitivity_rank s < sensitivity_rank t
    → HasClearance t r
    → HasClearance s r
unfolding sensitivity_rank
clearance_narrows confidential t r lt h = ground arith
clearance_narrows secret t r lt h = ground arith
clearance_narrows _ t r lt h = tt

narrow_visibility :
    (eff : EffectivePolicy) (layer : LayerPolicy)
    → ((narrow eff layer).visibility ≡ eff.visibility)
      ⊎ (visibility_rank eff.visibility < visibility_rank (narrow eff layer).visibility)
unfolding narrow
narrow_visibility eff layer = ground arith

narrow_sensitivity :
    (eff : EffectivePolicy) (layer : LayerPolicy)
    → ((narrow eff layer).sensitivity ≡ eff.sensitivity)
      ⊎ (sensitivity_rank eff.sensitivity < sensitivity_rank (narrow eff layer).sensitivity)
unfolding narrow
narrow_sensitivity eff layer = ground arith

narrow_grants_less :
    (req : AccessRequestChain) (eff : EffectivePolicy) (layer : LayerPolicy)
    → IsCoherent req
    → (resolve_access (with_policy req (narrow eff layer))).can_access ≡ true
    → (resolve_access (with_policy req eff)).can_access ≡ true
narrow_grants_less req eff layer co h =
    let (audience, clearance) = (resolve_access_iff (with_policy req (narrow eff layer))).0 h in
    (resolve_access_iff (with_policy req eff)).1 (wider audience, lower clearance)
  where
    wider :
        InAudience (narrow eff layer).visibility req.user_role req.is_project_member req.is_owner
        → InAudience eff.visibility req.user_role req.is_project_member req.is_owner
    wider a = elim (narrow_visibility eff layer) [
      | inl e ↦ subst (λ v. InAudience v req.user_role req.is_project_member req.is_owner) e a
      | inr lt ↦ audience_narrows eff.visibility (narrow eff layer).visibility req co lt a
    ]

    lower :
        HasClearance (narrow eff layer).sensitivity req.user_role
        → HasClearance eff.sensitivity req.user_role
    lower c = elim (narrow_sensitivity eff layer) [
      | inl e ↦ subst (λ t. HasClearance t req.user_role) e c
      | inr lt ↦ clearance_narrows eff.sensitivity (narrow eff layer).sensitivity req.user_role lt c
    ]

narrow_denies :
    (req : AccessRequestChain) (eff : EffectivePolicy) (layer : LayerPolicy)
    → IsCoherent req
    → (resolve_access (with_policy req eff)).can_access ≡ false
    → (resolve_access (with_policy req (narrow eff layer))).can_access ≡ false
narrow_denies req eff layer co h =
    elim (Bool-cases (resolve_access (with_policy req (narrow eff layer))).can_access) [
      | inl e ↦ absurd (cc (narrow_grants_less req eff layer co e))
      | inr e ↦ e
    ]

-- The chain with everything below a level taken out: the workspace alone at 0, then the project and
-- the folder.
abbrev pub blank : LayerPolicy
blank = record { visibility = Visibility.unset; sensitivity = Sensitivity.unset }

abbrev pub cut : ℕ → PolicyChain → PolicyChain
cut zero c = record c { project_layer = blank; folder_layer = blank; resource_layer = blank }
cut (suc zero) c = record c { folder_layer = blank; resource_layer = blank }
cut (suc (suc zero)) c = record c { resource_layer = blank }
cut (suc (suc (suc n))) c = c

-- For a request whose owner is a project member and whose project member has a workspace role, what
-- the layers down to some level deny, the whole chain denies.
pub chain_never_grants :
    (level : ℕ) (req : AccessRequestChain)
    → IsCoherent req
    → (resolve_access_chain (record req { chain = cut level req.chain })).can_access ≡ false
    → (resolve_access_chain req).can_access ≡ false
unfolding resolve_access_chain resolve
chain_never_grants level req co h = down level h
  where
    c : PolicyChain
    c = req.chain

    start : EffectivePolicy
    start = record {
      visibility = default_visibility c.workspace_layer.visibility;
      sensitivity = default_sensitivity c.workspace_layer.sensitivity;
    }

    Denied : EffectivePolicy → Type 0
    Denied eff = (resolve_access (with_policy req eff)).can_access ≡ false

    below_folder :
        Denied (narrow (narrow start c.project_layer) c.folder_layer) → Denied (resolve c)
    below_folder =
        narrow_denies req (narrow (narrow start c.project_layer) c.folder_layer) c.resource_layer co

    below_project : Denied (narrow start c.project_layer) → Denied (resolve c)
    below_project d =
        below_folder (narrow_denies req (narrow start c.project_layer) c.folder_layer co d)

    down : (n : ℕ) → Denied (resolve (cut n c)) → Denied (resolve c)
    down zero d = below_project (narrow_denies req start c.project_layer co (unfold narrow in d))
    down (suc zero) d = below_project (unfold narrow in d)
    down (suc (suc zero)) d = below_folder (unfold narrow in d)
    down (suc (suc (suc n))) d = d
