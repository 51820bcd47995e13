-- ===== src/Entitlement/Features.antt =====
-- What the tier, the plan and the organisation's own features give: the composed features, the type of the
-- project that narrows them, and the surfaces of the product.
use flyto_warroom.Prelude.{
  String, Bool, true, ◌&&◌, ◌||◌, ◌≡◌, refl, ap, ◌∙◌, inl, inr, Bool-cases, eq_iff, arith, List, [],
  ◌∷◌, ◌++◌, any, select, str_eq, if◌then◌else◌,
}
use flyto_warroom.Prelude.Dict.{Dict}
use flyto_warroom.Entitlement.{
  SurfaceAccess, BillingBehavior, included, addon_required, credit_required, billing_blocked,
  enabled, locked_preview, hidden, has_value, has_any, dedupe, has_value-dedupe,
}

-- The feature loops of `ResolveWithBillingMode`.
unfoldable pub compose_features : (tier plan org : List String) → List String
unfolding dedupe
compose_features tier plan org = dedupe (tier ++ (plan ++ org))

pub data ProjectType : Type 0 where
  project_all project_code project_ctem project_cloud project_custom project_other : ProjectType

abbrev shared_features : List String
shared_features =
    "compliance" ∷ "executive_report" ∷ "report_export" ∷ "email_notification"
    ∷ "slack_notification" ∷ "webhook" ∷ "sso" ∷ "audit_export" ∷ "private_runner"
    ∷ "dedicated_support" ∷ []

abbrev pub code_features : List String
code_features =
    "surface_code" ∷ "surface_container" ∷ "scoring_unified" ∷ "code_audit" ∷ "sast" ∷ "sca"
    ∷ "secrets" ∷ "iac" ∷ "autofix" ∷ "reachability" ∷ "ai_fix_plan" ∷ "red_team" ∷ "vuln_mgmt"
    ∷ "identity" ∷ "mcp" ∷ "runtime_protection" ∷ shared_features

abbrev pub ctem_features : List String
ctem_features =
    "surface_external" ∷ "ctem" ∷ "attack_surface" ∷ "posture_scoring" ∷ "asset_map"
    ∷ "scoring_unified" ∷ "sla_tracking" ∷ "mttr_tracking" ∷ "threat_feed" ∷ "supply_chain"
    ∷ "brand_protection" ∷ "continuous_monitoring" ∷ "vuln_mgmt" ∷ "identity" ∷ "mcp"
    ∷ "darkweb_intel" ∷ shared_features

abbrev pub cloud_features : List String
cloud_features =
    "surface_cloud" ∷ "cspm" ∷ "surface_container" ∷ "vuln_mgmt" ∷ "scoring_unified" ∷ "identity"
    ∷ "mcp" ∷ shared_features

-- A custom set that has both sides also has what spans them.
unfoldable pub custom_allowed : List String → List String
unfolding has_value has_any
custom_allowed custom =
    if has_any custom ("surface_code" ∷ "code_audit" ∷ [])
      && has_any custom ("surface_external" ∷ "ctem" ∷ [])
    then "pulse" ∷ "cross_dim_correlation" ∷ custom
    else custom

unfoldable pub apply_project_type : List String → ProjectType → (custom : List String) → List String
unfolding custom_allowed has_value
apply_project_type features project_all custom = features
apply_project_type features project_code custom = select (has_value code_features) features
apply_project_type features project_ctem custom = select (has_value ctem_features) features
apply_project_type features project_cloud custom = select (has_value cloud_features) features
apply_project_type features project_custom custom =
    select (has_value (custom_allowed custom)) features
apply_project_type features project_other custom = features

abbrev enabled_surface : SurfaceAccess
enabled_surface = record {
  state = enabled;
  billing = included;
  reason = "";
  required_feature = "";
  required_sku = "";
  paywall_key = "";
}

abbrev hidden_surface : SurfaceAccess
hidden_surface = record {
  state = hidden;
  billing = billing_blocked;
  reason = "";
  required_feature = "";
  required_sku = "";
  paywall_key = "";
}

abbrev locked : BillingBehavior → (reason feature sku paywall : String) → SurfaceAccess
locked behavior reason feature sku paywall = record {
  state = locked_preview;
  billing = behavior;
  reason = reason;
  required_feature = feature;
  required_sku = sku;
  paywall_key = paywall;
}

abbrev either_side : (own side : Bool) → SurfaceAccess → SurfaceAccess
either_side own side access =
    if own then enabled_surface else if side then access else hidden_surface

unfoldable pub ai_surface : (features : List String) → (base : Bool) → SurfaceAccess
ai_surface features base =
    if has_value features "ai_fix_plan"
    then enabled_surface
    else if has_value features "ai_credits"
    then record enabled_surface {
      billing = credit_required;
      required_feature = "ai_credits";
      required_sku = "flyto_ai_credits_pack";
      paywall_key = "ai_credits";
    }
    else if base
    then locked credit_required "AI workflows require an AI add-on or available AI credits."
        "ai_fix_plan" "flyto_ai_credits_pack" "ai_credits"
    else hidden_surface

unfoldable pub resolve_surfaces : (features : List String) → Dict SurfaceAccess
unfolding ai_surface
resolve_surfaces features =
    let has = has_value features in
    let base = has_any features (
      "surface_code" ∷ "code_audit" ∷ "surface_external" ∷ "ctem" ∷ "surface_cloud" ∷ "cspm"
      ∷ "surface_container" ∷ []) in
    let external = has_any features ("surface_external" ∷ "ctem" ∷ []) in
    (
      "code",
      if has_any features ("surface_code" ∷ "code_audit" ∷ [])
          then enabled_surface
          else hidden_surface,
    )
    ∷ ("external_ctem", if external then enabled_surface else hidden_surface)
    ∷ (
      "darkweb",
      either_side (has "darkweb_intel") external (
          locked addon_required
            "Darkweb monitoring requires the Darkweb add-on or Enterprise bundle." "darkweb_intel"
            "flyto_darkweb_monthly" "darkweb_intel"),
    )
    ∷ (
      "subsidiary_brand",
      either_side (has "brand_protection") external (
          locked addon_required
            "Brand, subsidiary, and impersonation monitoring require the Brand Protection add-on."
            "brand_protection" "flyto_brand_protection_monthly" "brand_protection"),
    )
    ∷ (
      "cloud_cspm",
      either_side (has "cspm") (has "surface_cloud") (
          locked addon_required
            "Cloud posture management requires the CSPM add-on or Full Platform bundle." "cspm"
            "flyto_cspm_monthly" "cloud_cspm"),
    )
    ∷ (
      "container_runtime",
      if has_any features ("surface_container" ∷ "runtime_protection" ∷ [])
          then enabled_surface
          else hidden_surface,
    )
    ∷ ("ai", ai_surface features base)
    ∷ (
      "reports_compliance",
      either_side (has_any features ("report_export" ∷ "executive_report" ∷ "compliance" ∷ [])) base
          (locked addon_required
            "Reports, compliance evidence, and exports require a report add-on or Pro plan."
            "report_export" "flyto_report_export_monthly" "report_export"),
    )
    ∷ []

-- What a type of project keeps.
abbrev pub keeps : ProjectType → (custom : List String) → String → Bool
keeps project_code custom f = has_value code_features f
keeps project_ctem custom f = has_value ctem_features f
keeps project_cloud custom f = has_value cloud_features f
keeps project_custom custom f = has_value (custom_allowed custom) f
keeps _ custom f = true

has_value-select :
    (p : String → Bool) (xs : List String) (f : String)
    → has_value (select p xs) f ≡ (has_value xs f && p f)
unfolding has_value any select
has_value-select p [] f = refl
has_value-select p (x ∷ xs) f = elim (Bool-cases (str_eq x f)) [
  | inl e ↦
      let same : p x ≡ p f = ap p ((eq_iff x f).0 e) in
      ground (arith, has_value-select p xs f, same, e)
  | inr e ↦ ground (arith, has_value-select p xs f, e)
]

has_value-append :
    (xs ys : List String) (v : String) → has_value (xs ++ ys) v ≡ (has_value xs v || has_value ys v)
unfolding has_value any
has_value-append [] ys v = refl
has_value-append (x ∷ xs) ys v = ground (arith, has_value-append xs ys v)

narrowed :
    (features : List String) (pt : ProjectType) (custom : List String) (f : String)
    → has_value (apply_project_type features pt custom) f
      ≡ (has_value features f && keeps pt custom f)
unfolding apply_project_type
narrowed features project_all custom f = ground arith
narrowed features project_code custom f = has_value-select (has_value code_features) features f
narrowed features project_ctem custom f = has_value-select (has_value ctem_features) features f
narrowed features project_cloud custom f = has_value-select (has_value cloud_features) features f
narrowed features project_custom custom f =
    has_value-select (has_value (custom_allowed custom)) features f
narrowed features project_other custom f = ground arith

-- A project has a feature exactly if the tier, the plan or the organisation has it and the project's type
-- keeps it: no type adds a feature.
pub entitled_iff :
    (tier plan org custom : List String) (pt : ProjectType) (f : String)
    → has_value (apply_project_type (compose_features tier plan org) pt custom) f
      ≡ ((has_value tier f || (has_value plan f || has_value org f)) && keeps pt custom f)
unfolding compose_features
entitled_iff tier plan org custom pt f =
    narrowed (compose_features tier plan org) pt custom f
    ∙ ap (λ b. b && keeps pt custom f)
        (has_value-dedupe (tier ++ (plan ++ org)) f
          ∙ has_value-append tier (plan ++ org) f
          ∙ ap (λ b. has_value tier f || b) (has_value-append plan org f))
