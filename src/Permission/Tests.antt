-- ===== src/Permission/Tests.antt =====
-- Runs of the access check, and its theorems at concrete inputs.
use flyto_warroom.Prelude.{◌≡◌, ◌↔◌, inl, refl, true, false, any}
use flyto_warroom.Permission.{
  Role, owner, admin, member, viewer, guest, Visibility, workspace, project, private, secret,
  AccessRequest, role_permissions, has_permission, resolve_access, role_hierarchy,
}
use flyto_warroom.Permission.Inherit.{
  PolicyChain, AccessRequestChain, resolve, narrow, visibility_rank, sensitivity_rank,
  default_visibility, default_sensitivity, resolve_access_chain,
}
use flyto_warroom.Permission.Access.{
  Reaches, HasClearance, is_classified, resolve_access_iff, audit_required_iff,
  has_permission_chain,
}
use flyto_warroom.Permission.Chain.{cut, resolve_ranks, chain_never_grants}
use flyto_warroom.Permission.Gaps.{
  two_layers, asks, inner_layer_grants_owner, unknown_visibility_grants,
}

-- An admin, in the project, asks for a secret page of it.
abbrev secret_page : AccessRequest
secret_page = record {
  user_role = admin;
  visibility = project;
  sensitivity = secret;
  is_project_member = true;
  is_owner = false;
}

secret_page_denied : (resolve_access secret_page).reason ≡ "secret access denied"
unfolding resolve_access has_permission role_permissions any
secret_page_denied = refl

resolve_access_iff_example :
    ((resolve_access secret_page).can_access ≡ true)
    ↔ (Reaches project secret_page × HasClearance secret admin)
resolve_access_iff_example = resolve_access_iff secret_page

audit_required_iff_holds :
    ((resolve_access secret_page).audit_required ≡ true)
    ↔ (Reaches project secret_page × (is_classified secret ≡ true))
audit_required_iff_holds = audit_required_iff secret_page

has_permission_chain_holds :
    (has_permission guest "page.view" ≡ true → has_permission member "page.view" ≡ true)
    × (has_permission member "page.view" ≡ true → has_permission admin "page.view" ≡ true)
    × (has_permission admin "page.view" ≡ true → has_permission owner "page.view" ≡ true)
has_permission_chain_holds = has_permission_chain "page.view"

-- A viewer stands above a guest and has no permission at all.
viewer_has_none : has_permission viewer "page.view" ≡ false
unfolding has_permission role_permissions any
viewer_has_none = refl

abbrev private_page : PolicyChain
private_page = two_layers workspace private

resolve_ranks_holds :
    (visibility_rank (resolve private_page).visibility ≡ 3)
    × (sensitivity_rank (resolve private_page).sensitivity ≡ 0)
unfolding visibility_rank sensitivity_rank default_visibility default_sensitivity
resolve_ranks_holds = resolve_ranks private_page

abbrev member_asks : AccessRequestChain
member_asks = asks (Role.other "bot") (two_layers workspace private) false false

chain_never_grants_example : (resolve_access_chain member_asks).can_access ≡ false
unfolding resolve_access_chain resolve narrow visibility_rank sensitivity_rank default_visibility
    default_sensitivity resolve_access role_hierarchy
chain_never_grants_example =
    chain_never_grants 0 member_asks
      (record { owner_is_member = λ h. cc; member_has_role = λ h. absurd (cc) }) refl

inner_layer_grants_owner_holds :
    ((resolve_access_chain (asks guest (cut 0 (two_layers project private)) false true)).can_access
      ≡ false)
    × ((resolve_access_chain (asks guest (two_layers project private) false true)).can_access
        ≡ true)
inner_layer_grants_owner_holds = inner_layer_grants_owner guest private (inl refl)

unknown_visibility_grants_holds :
    ((resolve_access_chain (
        asks
          (Role.other "bot")
          (two_layers (Visibility.other "team") Visibility.unset)
          false
          false)).can_access
      ≡ true)
    × ((resolve_access_chain
          (asks (Role.other "bot") (two_layers workspace Visibility.unset) false false)).can_access
        ≡ false)
unknown_visibility_grants_holds = unknown_visibility_grants "team" "bot"
