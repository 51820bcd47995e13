-- ===== src/Entitlement.antt =====
-- permission/capabilities.go and permission/edition.go: what an organisation has bought and what a role may
-- do, made into one snapshot. The YAML matrix and the profile of the edition are arguments: their files
-- are read at startup.
pub mod Features
pub mod Roles
pub mod Actions
pub mod Snapshot
pub mod Gates
pub mod Contract
mod Tests
use flyto_warroom.Prelude.{
  ℕ, String, Bool, true, false, not, ◌&&◌, ◌||◌, List, [], ◌∷◌, any, select, str_eq, if◌then◌else◌,
  ◌≡◌, refl, arith, eq_iff,
}
use flyto_warroom.Prelude.Dict.{Dict}

-- `PageStateEnabled`, `PageStateLockedPreview`, `PageStateHidden`
pub data PageState : Type 0 where
  enabled locked_preview hidden : PageState

-- `ActionStateAllowed`, `ActionStatePaymentRequired`, `ActionStateBlocked`
pub data ActionState : Type 0 where
  allowed payment_required blocked : ActionState

pub data BillingBehavior : Type 0 where
  included addon_required metered credit_required billing_blocked : BillingBehavior

pub data BillingMode : Type 0 where
  preview live : BillingMode

pub record SurfaceAccess : Type 0 where
  pub state : PageState
  pub billing : BillingBehavior
  pub reason : String
  pub required_feature : String
  pub required_sku : String
  pub paywall_key : String

pub record ActionAccess : Type 0 where
  pub state : ActionState
  pub billing : BillingBehavior
  pub reason : String
  pub required_action : String
  pub required_feature : String
  pub required_sku : String
  pub paywall_key : String

pub record RoleConfig : Type 0 where
  pub inherits : String
  pub permissions : List String

-- A set of strings, by its elements: `hasSetValue` and `hasAnySetValue`.
unfoldable pub has_value : List String → String → Bool
has_value set value = any (λ v. str_eq v value) set

unfoldable pub has_any : List String → List String → Bool
unfolding has_value
has_any set [] = false
has_any set (v ∷ vs) = has_value set v || has_any set vs

-- `makeStringSet`
unfoldable pub make_set : List String → List String
make_set values = select (λ v. not (str_eq v "")) values

-- The first occurrence of each string, in order: the loops over a `seen` set.
unfoldable pub dedupe_from : (seen : List String) → List String → List String
unfolding has_value
dedupe_from seen [] = []
dedupe_from seen (x ∷ xs) =
    let skip = dedupe_from seen xs in
    let keep = dedupe_from (x ∷ seen) xs in if has_value seen x then skip else x ∷ keep

unfoldable pub dedupe : List String → List String
unfolding dedupe_from
dedupe xs = dedupe_from [] xs

pub has_value-dedupe_from :
    (seen xs : List String) (v : String)
    → has_value seen v ≡ false
    → has_value (dedupe_from seen xs) v ≡ has_value xs v
unfolding dedupe_from has_value any
has_value-dedupe_from seen [] v h = refl
has_value-dedupe_from seen (x ∷ xs) v h =
    ground
      (arith, has_value-dedupe_from seen xs v h, has_value-dedupe_from (x ∷ seen) xs v, eq_iff x v)

pub has_value-dedupe : (xs : List String) (v : String) → has_value (dedupe xs) v ≡ has_value xs v
unfolding dedupe has_value any
has_value-dedupe xs v = has_value-dedupe_from [] xs v refl
