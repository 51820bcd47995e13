-- ===== src/Entitlement/Snapshot.antt =====
-- `decorateCommercial` and what it calls, over the surfaces and the actions of the snapshot; the overlay of the
-- edition's profile; `ReconcileCommercialActionsWithPermissions` and the checks of the handlers. The
-- order of a map's keys does not show.
use flyto_warroom.Prelude.{
  String, Bool, true, false, not, ◌&&◌, Option, none, some, List, [], ◌∷◌, str_eq, trim_space, map,
  if◌then◌else◌,
}
use Prim.Native.String.{◌++◌}
use flyto_warroom.Prelude.Dict.{Dict, insert, lookup}
use flyto_warroom.Entitlement.{
  BillingMode, preview, live, BillingBehavior, included, addon_required, metered, credit_required,
  billing_blocked, SurfaceAccess, ActionAccess, ActionState, allowed, payment_required, blocked,
  PageState, enabled, hidden, has_value, make_set, dedupe,
}
use flyto_warroom.Entitlement.Features.{resolve_surfaces}
use flyto_warroom.Entitlement.Actions.{commercial_actions, blocked_access}

pub record Capabilities : Type 0 where
  pub billing_mode : BillingMode
  pub features : List String
  pub permissions : List String
  pub edition : String
  pub hidden_surfaces : List String
  pub unsupported_actions : List String
  pub surfaces : Dict SurfaceAccess
  pub actions : Dict ActionAccess

pub record EditionProfile : Type 0 where
  pub edition : String
  pub hidden_surfaces : List String
  pub unsupported_actions : List String

abbrev pub is_payment : BillingBehavior → Bool
is_payment addon_required = true
is_payment metered = true
is_payment credit_required = true
is_payment _ = false

abbrev is_hidden : PageState → Bool
is_hidden hidden = true
is_hidden _ = false

abbrev one_of : String → List String → Bool
one_of s names = has_value names s

unfoldable pub preview_required : String → String
preview_required action =
    if one_of action
      ("report.build" ∷ "report.export" ∷ "report:export" ∷ "ai.report" ∷ "evidence.export" ∷ [])
    then "report:export"
    else if one_of action ("redteam.run" ∷ "pentest:run" ∷ "ai.redteam.plan" ∷ [])
    then "pentest:run"
    else if one_of action ("darkweb.monitor" ∷ "darkweb:monitor" ∷ [])
    then "darkweb:monitor"
    else if one_of action
        ("ai.chat" ∷ "ai.fix" ∷ "ai.agent_tool.call" ∷ "ai.workflow_mcp.call" ∷ [])
    then "autofix:open_pr"
    else ""

-- `for key, access := range m { ...; m[key] = access }`
unfoldable pub map_values {ℓ} : {V : Type ℓ} → (String → V → V) → Dict V → Dict V
map_values f [] = []
map_values f ((k, v) ∷ m) = (k, f k v) ∷ map_values f m

abbrev pub disabled : String
disabled = "Billing is disabled during preview."

unfoldable pub preview_surface : String → SurfaceAccess → SurfaceAccess
preview_surface key access =
    if not (is_hidden access.state) && is_payment access.billing
    then record access { state = enabled; billing = included; reason = disabled }
    else access

unfoldable pub preview_unpaid : (permissions : List String) → String → ActionAccess → ActionAccess
unfolding preview_required
preview_unpaid permissions key access =
    let required = preview_required key in
    if not (str_eq required "") && not (has_value permissions required)
    then record access {
      state = blocked;
      billing = billing_blocked;
      reason = "The current role is not allowed to use this preview action.";
      required_action = required;
    }
    else record access { state = allowed; billing = included; reason = disabled }

unfoldable pub preview_by_state :
    ActionState → (permissions : List String) → String → ActionAccess → ActionAccess
unfolding preview_unpaid
preview_by_state blocked permissions key access = access
preview_by_state payment_required permissions key access = preview_unpaid permissions key access
preview_by_state allowed permissions key access =
    if is_payment access.billing
    then record access { billing = included; reason = disabled }
    else access

unfoldable pub preview_action : (permissions : List String) → String → ActionAccess → ActionAccess
unfolding preview_by_state
preview_action permissions key access = preview_by_state access.state permissions key access

-- `applyBillingPreview`
unfoldable pub apply_billing_preview : Capabilities → (permissions : List String) → Capabilities
unfolding map_values preview_surface preview_action
apply_billing_preview caps permissions = record caps {
  surfaces = map_values preview_surface caps.surfaces;
  actions = map_values (preview_action permissions) caps.actions;
}

unfoldable pub hide_each : (reason : String) → List String → Dict SurfaceAccess → Dict SurfaceAccess
hide_each reason [] surfaces = surfaces
hide_each reason (name ∷ names) surfaces = hide_each reason names (
    insert name
      (record {
        state = hidden;
        billing = billing_blocked;
        reason = reason;
        required_feature = "";
        required_sku = "";
        paywall_key = "";
      })
      surfaces)

unfoldable pub block_each : (reason : String) → List String → Dict ActionAccess → Dict ActionAccess
block_each reason [] actions = actions
block_each reason (name ∷ names) actions =
    block_each reason names (insert name (blocked_access reason "") actions)

-- `sortedUnique` up to the order that `sort.Strings` brings.
unfoldable pub unique_names : List String → List String
unfolding make_set dedupe
unique_names values = dedupe (make_set (map trim_space values))

unfoldable pub apply_edition_profile : Capabilities → EditionProfile → Capabilities
unfolding hide_each block_each unique_names
apply_edition_profile caps profile =
    let hidden_names = unique_names profile.hidden_surfaces in
    let unsupported = unique_names profile.unsupported_actions in
    record caps {
      edition = profile.edition;
      hidden_surfaces = hidden_names;
      unsupported_actions = unsupported;
      surfaces =
          hide_each ("Hidden in " ++ (profile.edition ++ " edition.")) hidden_names caps.surfaces;
      actions =
          block_each ("Unsupported in " ++ (profile.edition ++ " edition.")) unsupported
            caps.actions;
    }

unfoldable pub in_preview : BillingMode → Capabilities → (permissions : List String) → Capabilities
unfolding apply_billing_preview
in_preview preview caps permissions = apply_billing_preview caps permissions
in_preview live caps permissions = caps

unfoldable pub resolved : Capabilities → Capabilities
unfolding commercial_actions resolve_surfaces make_set
resolved caps =
    let features = make_set caps.features in
    record caps {
      surfaces = resolve_surfaces features;
      actions = commercial_actions features (make_set caps.permissions);
    }

-- `decorateCommercial`
unfoldable pub decorate_commercial : EditionProfile → Capabilities → Capabilities
unfolding in_preview apply_edition_profile resolved
decorate_commercial profile caps =
    apply_edition_profile (in_preview caps.billing_mode (resolved caps) (make_set caps.permissions))
      profile

abbrev pub is_blocked : ActionState → Bool
is_blocked blocked = true
is_blocked _ = false

unfoldable pub reopened : (permissions : List String) → String → ActionAccess → ActionAccess
reopened permissions key access =
    if is_blocked access.state
      && (not (str_eq access.required_action "") && has_value permissions access.required_action)
    then record access { state = allowed; billing = included; reason = ""; required_action = "" }
    else access

-- `ReconcileCommercialActionsWithPermissions`: without actions or permissions nothing is reopened anyway.
unfoldable pub reconcile : Capabilities → Capabilities
unfolding map_values reopened make_set
reconcile caps = record caps {
  actions = map_values (reopened (make_set caps.permissions)) caps.actions;
}

unfoldable pub or_unknown : Option ActionAccess → ActionAccess
or_unknown none = blocked_access "unknown commercial action" ""
or_unknown (some access) = access

-- `CommercialActionFor` and `HasCommercialAction`
unfoldable pub commercial_action_for : Capabilities → String → ActionAccess
unfolding or_unknown
commercial_action_for caps action = or_unknown (lookup action caps.actions)

abbrev pub is_allowed : ActionState → Bool
is_allowed allowed = true
is_allowed _ = false

unfoldable pub has_commercial_action : Capabilities → String → Bool
unfolding commercial_action_for
has_commercial_action caps action = is_allowed (commercial_action_for caps action).state
