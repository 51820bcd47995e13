-- ===== src/Permission/Inherit.antt =====
-- internal/permission/inherit.go: the cascade of policies from workspace to resource.
use flyto_warroom.Prelude.{ℕ, Bool, true, false, ◌&&◌, List, [], ◌∷◌, ltb, if◌then◌else◌}
use flyto_warroom.Permission.{
  Role, Visibility, Sensitivity, public, workspace, project, private, restricted, open_access,
  internal, confidential, secret, AccessResult, resolve_access,
}

pub record LayerPolicy : Type 0 where
  pub visibility : Visibility
  pub sensitivity : Sensitivity

pub record EffectivePolicy : Type 0 where
  pub visibility : Visibility
  pub sensitivity : Sensitivity

pub record PolicyChain : Type 0 where
  pub workspace_layer : LayerPolicy
  pub project_layer : LayerPolicy
  pub folder_layer : LayerPolicy
  pub resource_layer : LayerPolicy

unfoldable pub visibility_rank : Visibility → ℕ
visibility_rank public = 0
visibility_rank workspace = 1
visibility_rank project = 2
visibility_rank private = 3
visibility_rank restricted = 4
visibility_rank Visibility.unset = 1
visibility_rank (Visibility.other s) = 1

unfoldable pub sensitivity_rank : Sensitivity → ℕ
sensitivity_rank open_access = 0
sensitivity_rank internal = 1
sensitivity_rank confidential = 2
sensitivity_rank secret = 3
sensitivity_rank Sensitivity.unset = 0
sensitivity_rank (Sensitivity.other s) = 0

unfoldable pub default_visibility : Visibility → Visibility
default_visibility Visibility.unset = workspace
default_visibility public = public
default_visibility workspace = workspace
default_visibility project = project
default_visibility private = private
default_visibility restricted = restricted
default_visibility (Visibility.other s) = Visibility.other s

unfoldable pub default_sensitivity : Sensitivity → Sensitivity
default_sensitivity Sensitivity.unset = open_access
default_sensitivity open_access = open_access
default_sensitivity internal = internal
default_sensitivity confidential = confidential
default_sensitivity secret = secret
default_sensitivity (Sensitivity.other s) = Sensitivity.other s

abbrev pub visibility_set : Visibility → Bool
visibility_set Visibility.unset = false
visibility_set _ = true

abbrev pub sensitivity_set : Sensitivity → Bool
sensitivity_set Sensitivity.unset = false
sensitivity_set _ = true

-- One round of the loop over the inner layers.
unfoldable pub narrow : EffectivePolicy → LayerPolicy → EffectivePolicy
narrow eff layer = record {
  visibility =
      if visibility_set layer.visibility
        && ltb (visibility_rank eff.visibility) (visibility_rank layer.visibility)
      then layer.visibility
      else eff.visibility;
  sensitivity =
      if sensitivity_set layer.sensitivity
        && ltb (sensitivity_rank eff.sensitivity) (sensitivity_rank layer.sensitivity)
      then layer.sensitivity
      else eff.sensitivity;
}

narrow_all : EffectivePolicy → List LayerPolicy → EffectivePolicy
narrow_all eff [] = eff
narrow_all eff (layer ∷ layers) = narrow_all (narrow eff layer) layers

abbrev pub inner_layers : PolicyChain → List LayerPolicy
inner_layers c = c.project_layer ∷ c.folder_layer ∷ c.resource_layer ∷ []

unfoldable pub resolve : PolicyChain → EffectivePolicy
unfolding narrow_all
resolve c =
    narrow_all
      (record {
        visibility = default_visibility c.workspace_layer.visibility;
        sensitivity = default_sensitivity c.workspace_layer.sensitivity;
      })
      (inner_layers c)

pub record AccessRequestChain : Type 0 where
  pub user_role : Role
  pub chain : PolicyChain
  pub is_project_member : Bool
  pub is_owner : Bool

unfoldable pub resolve_access_chain : AccessRequestChain → AccessResult
resolve_access_chain req =
    let eff = resolve req.chain in
    resolve_access (record {
      user_role = req.user_role;
      visibility = eff.visibility;
      sensitivity = eff.sensitivity;
      is_project_member = req.is_project_member;
      is_owner = req.is_owner;
    })
