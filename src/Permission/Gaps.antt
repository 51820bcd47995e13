-- ===== src/Permission/Gaps.antt =====
-- Requests for which the cascade does not do what its comments say.
use flyto_warroom.Prelude.{◌≡◌, ◌⊎◌, String, Bool, true, false, arith}
use flyto_warroom.Permission.{
  Role, Visibility, workspace, project, private, restricted, Sensitivity, role_hierarchy,
  resolve_access,
}
use flyto_warroom.Permission.Inherit.{
  PolicyChain, AccessRequestChain, resolve, narrow, visibility_rank, sensitivity_rank,
  default_visibility, default_sensitivity, resolve_access_chain,
}
use flyto_warroom.Permission.Chain.{blank, cut}

-- A workspace of the given visibility, and a resource in it with another one.
abbrev pub two_layers : Visibility → Visibility → PolicyChain
two_layers outer inner = record {
  workspace_layer = record { visibility = outer; sensitivity = Sensitivity.unset };
  project_layer = blank;
  folder_layer = blank;
  resource_layer = record { visibility = inner; sensitivity = Sensitivity.unset };
}

abbrev pub asks : Role → PolicyChain → (is_member is_owner : Bool) → AccessRequestChain
asks role c is_member is_owner = record {
  user_role = role;
  chain = c;
  is_project_member = is_member;
  is_owner = is_owner;
}

-- To the owner of a resource who is no member of its project, whatever the role, a workspace of
-- visibility `project` denies access, and a private or restricted resource in it grants access.
pub inner_layer_grants_owner :
    (role : Role) (inner : Visibility)
    → (inner ≡ private) ⊎ (inner ≡ restricted)
    → ((resolve_access_chain (asks role (cut 0 (two_layers project inner)) false true)).can_access
        ≡ false)
      × ((resolve_access_chain (asks role (two_layers project inner) false true)).can_access ≡ true)
unfolding resolve_access_chain resolve narrow visibility_rank sensitivity_rank default_visibility
    default_sensitivity resolve_access
inner_layer_grants_owner role inner h = ground arith

-- A workspace whose visibility is no declared string grants access to somebody of an undeclared role
-- who is neither a member nor the owner, whom a workspace of visibility `workspace` denies.
pub unknown_visibility_grants :
    (spelling role : String)
    → ((resolve_access_chain (
          asks
            (Role.other role)
            (two_layers (Visibility.other spelling) Visibility.unset)
            false
            false)).can_access
        ≡ true)
      × ((resolve_access_chain
            (asks (Role.other role) (two_layers workspace Visibility.unset) false false)).can_access
          ≡ false)
unfolding resolve_access_chain resolve narrow visibility_rank sensitivity_rank default_visibility
    default_sensitivity resolve_access role_hierarchy
unknown_visibility_grants spelling role = ground arith
