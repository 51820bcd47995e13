-- ===== src/Entitlement/Contract.antt =====
-- The snapshot through the preview, the edition's overlay and the permissions that are added later.
use Prim.Native.String.{◌++◌ as ◌++ₛ◌}
use flyto_warroom.Prelude.{
  select, ◌≡◌, ◌⊎◌, inl, inr, refl, String, true, false, not, ◌&&◌, ◌||◌, ◌∙◌, Option, none, some,
  List, [], ◌∷◌, ◌++◌, arith, any, str_eq, eq_iff, if_elim, Bool-cases,
}
use mathlib.Core.Path.{subst}
use flyto_warroom.Prelude.Dict.{Dict, insert, lookup, lookup-insert}
use flyto_warroom.Entitlement.{BillingMode, preview, live, ActionAccess, has_value, make_set}
use flyto_warroom.Entitlement.Actions.{blocked_access}
use flyto_warroom.Entitlement.Snapshot.{
  Capabilities, EditionProfile, map_values, preview_action, reopened, reconcile, block_each,
  apply_edition_profile, apply_billing_preview, in_preview, decorate_commercial, resolved,
  commercial_action_for, has_commercial_action, or_unknown, unique_names, is_blocked, is_allowed,
}
use flyto_warroom.Entitlement.Gates.{
  some_eq, demanded, for_credits, is_gated, AllGated, map_values-gated, preview-gated,
  block_each-gated, actions-gated,
}

module _ (features permissions : List String) where
  lookup-gated :
      (key : String) (d : Dict ActionAccess) (a : ActionAccess)
      → AllGated features permissions d
      → lookup key d ≡ some a
      → is_gated features permissions key a ≡ true
  unfolding lookup AllGated
  lookup-gated key [] a all e = absurd (cc e)
  lookup-gated key ((j, b) ∷ d) a (g, all) e = elim (Bool-cases (str_eq j key)) [
    | inl q ↦
        let here : b ≡ a = some_eq (rw (q, lookup) at e) in
        subst (λ k. is_gated features permissions k a ≡ true) ((eq_iff j key).0 q)
          (subst (λ x. is_gated features permissions j x ≡ true) here g)
    | inr q ↦ lookup-gated key d a all (rw (q, lookup) at e)
  ]

  in_preview-gated :
      (mode : BillingMode) (caps : Capabilities)
      → AllGated features permissions caps.actions
      → AllGated features permissions (in_preview mode caps permissions).actions
  unfolding in_preview apply_billing_preview
  in_preview-gated preview caps all =
      map_values-gated features permissions (preview_action permissions) caps.actions
        (preview-gated features permissions) all
  in_preview-gated live caps all = all

  overlay-gated :
      (profile : EditionProfile) (caps : Capabilities)
      → AllGated features permissions caps.actions
      → AllGated features permissions (apply_edition_profile caps profile).actions
  unfolding apply_edition_profile
  overlay-gated profile caps all =
      block_each-gated features permissions
        ("Unsupported in " ++ₛ (profile.edition ++ₛ " edition."))
        (unique_names profile.unsupported_actions) caps.actions all

-- More permissions.
module _ (features few more : List String)
    (grow : (p : String) → has_value few p ≡ true → has_value more p ≡ true) where
  reopened-gated :
      (k : String) (a : ActionAccess)
      → is_gated features few k a ≡ true
      → is_gated features more k (reopened more k a) ≡ true
  unfolding is_gated reopened
  reopened-gated k a g =
      let same = eq_iff a.required_action (demanded k) in
      let wider = grow (demanded k) in
      if_elim (λ x. is_gated features more k x ≡ true)
        (is_blocked a.state
          && (not (str_eq a.required_action "") && has_value more a.required_action))
        (λ e.
          let q : a.required_action ≡ demanded k = same.0 (ground (arith, e, g)) in
          let has : has_value more (demanded k) ≡ true =
            subst (λ r. has_value more r ≡ true) q (ground (arith, e)) in
          ground (arith, has))
        (λ e. ground (arith, g, wider))

  reconciled-gated :
      (d : Dict ActionAccess)
      → AllGated features few d
      → AllGated features more (map_values (reopened more) d)
  unfolding map_values AllGated
  reconciled-gated [] all = tt
  reconciled-gated ((k, a) ∷ d) (g, all) = (reopened-gated k a g, reconciled-gated d all)

decorated-gated :
    (profile : EditionProfile) (caps : Capabilities)
    → AllGated
        (make_set caps.features)
        (make_set caps.permissions)
        (decorate_commercial profile caps).actions
unfolding decorate_commercial resolved
decorated-gated profile caps =
    let features = make_set caps.features in
    let permissions = make_set caps.permissions in
    overlay-gated features permissions profile
      (in_preview caps.billing_mode (resolved caps) permissions)
      (in_preview-gated features permissions caps.billing_mode (resolved caps)
        (actions-gated features permissions))

make_set-grows :
    (xs ys : List String) (p : String)
    → has_value (make_set xs) p ≡ true
    → has_value (make_set (xs ++ ys)) p ≡ true
unfolding make_set select has_value any
make_set-grows [] ys p h = absurd (cc h)
make_set-grows (x ∷ xs) ys p h = ground (arith, make_set-grows xs ys p)

-- The snapshot after permissions were added and the actions reconciled with them.
unfoldable pub with_added : EditionProfile → Capabilities → (added : List String) → Capabilities
unfolding reconcile decorate_commercial
with_added profile caps added =
    reconcile
      (record (decorate_commercial profile caps) { permissions = caps.permissions ++ added })

gated-allowed :
    (features permissions : List String) (key : String) (o : Option ActionAccess)
    → ((a : ActionAccess) → o ≡ some a → is_gated features permissions key a ≡ true)
    → is_allowed (or_unknown o).state ≡ true
    → (has_value permissions (demanded key) || for_credits features key) ≡ true
unfolding or_unknown is_gated
gated-allowed features permissions key none gated h = absurd (cc h)
gated-allowed features permissions key (some a) gated h = ground (arith, gated a refl)

-- Whatever was bought, in preview and live, in every edition, and after permissions were added: an action
-- that may run is one whose role's permission is among the snapshot's, but for an AI report that is
-- paid with AI credits where reports were not bought.
pub allowed_needs_role :
    (profile : EditionProfile) (caps : Capabilities) (added : List String) (key : String)
    → has_commercial_action (with_added profile caps added) key ≡ true
    → (has_value (make_set (caps.permissions ++ added)) (demanded key)
        || for_credits (make_set caps.features) key)
      ≡ true
unfolding with_added reconcile has_commercial_action commercial_action_for
allowed_needs_role profile caps added key h =
    let features = make_set caps.features in
    let more = make_set (caps.permissions ++ added) in
    gated-allowed features more key _
      (λ a e.
        lookup-gated features more key _ a
          (reconciled-gated features (make_set caps.permissions) more
            (make_set-grows caps.permissions added) _ (decorated-gated profile caps))
          e)
      h

lookup-block_each :
    (reason : String) (names : List String) (d : Dict ActionAccess) (name : String)
    → has_value names name ≡ true ⊎ (lookup name d ≡ some (blocked_access reason ""))
    → lookup name (block_each reason names d) ≡ some (blocked_access reason "")
unfolding block_each has_value any
lookup-block_each reason [] d name (inl m) = absurd (cc m)
lookup-block_each reason [] d name (inr e) = e
lookup-block_each reason (n ∷ names) d name h =
    lookup-block_each reason names (insert n (blocked_access reason "") d) name
      (elim (Bool-cases (str_eq n name)) [
        | inl q ↦ inr (lookup-insert n name (blocked_access reason "") d ∙ ground (arith, q))
        | inr q ↦ elim h [
          | inl m ↦ inl (ground (arith, m, q))
          | inr e ↦ inr (lookup-insert n name (blocked_access reason "") d ∙ ground (arith, q, e))
        ]
      ])

lookup-map_values :
    (f : String → ActionAccess → ActionAccess) (d : Dict ActionAccess) (k : String)
    (a : ActionAccess)
    → lookup k d ≡ some a
    → lookup k (map_values f d) ≡ some (f k a)
unfolding lookup map_values
lookup-map_values f [] k a e = absurd (cc e)
lookup-map_values f ((j, b) ∷ d) k a e = ground (arith, lookup-map_values f d k a, eq_iff j k)

overlay-lookup :
    (profile : EditionProfile) (caps : Capabilities) (name : String)
    → has_value (unique_names profile.unsupported_actions) name ≡ true
    → lookup name (apply_edition_profile caps profile).actions
      ≡ some (blocked_access ("Unsupported in " ++ₛ (profile.edition ++ₛ " edition.")) "")
unfolding apply_edition_profile
overlay-lookup profile caps name h =
    lookup-block_each ("Unsupported in " ++ₛ (profile.edition ++ₛ " edition."))
      (unique_names profile.unsupported_actions) caps.actions name (inl h)

-- An action that the edition does not support stays blocked, whatever was bought, in preview and live, and
-- after permissions were added.
pub unsupported_stays_blocked :
    (profile : EditionProfile) (caps : Capabilities) (added : List String) (name : String)
    → has_value (unique_names profile.unsupported_actions) name ≡ true
    → has_commercial_action (with_added profile caps added) name ≡ false
unfolding with_added reconcile has_commercial_action commercial_action_for decorate_commercial
    or_unknown reopened
unsupported_stays_blocked profile caps added name h =
    let more = make_set (caps.permissions ++ added) in
    let e =
      overlay-lookup profile
        (in_preview caps.billing_mode (resolved caps) (make_set caps.permissions)) name h in
    let reason = "Unsupported in " ++ₛ (profile.edition ++ₛ " edition.") in
    rw
      (lookup-map_values (reopened more) (decorate_commercial profile caps).actions name
        (blocked_access reason "") e)
      refl
