-- ===== src/Entitlement/Tests.antt =====
-- A small matrix and snapshots of it.
use flyto_warroom.Prelude.{
  ℕ, suc, ◌≡◌, ◌↔◌, ◌||◌, refl, String, true, false, some, List, [], ◌∷◌, any, select, length,
  trim_space,
}
use flyto_warroom.Prelude.Dict.{Dict, lookup, insert}
use flyto_warroom.Entitlement.{
  RoleConfig, BillingMode, preview, live, has_value, make_set, dedupe, has_any,
}
use flyto_warroom.Entitlement.Roles.{role_perms, role_perms_end, role_perms_exact, grants_by}
use flyto_warroom.Entitlement.Features.{
  project_ctem, apply_project_type, compose_features, entitled_iff,
}
use flyto_warroom.Entitlement.Snapshot.{
  Capabilities, EditionProfile, has_commercial_action, unique_names,
}
use flyto_warroom.Entitlement.Gates.{demanded, for_credits}
use flyto_warroom.Entitlement.Contract.{with_added, allowed_needs_role, unsupported_stays_blocked}

-- Roles that inherit from each other.
abbrev two_roles : Dict RoleConfig
two_roles =
    ("owner", record { inherits = "admin"; permissions = "org:delete" ∷ [] })
    ∷ ("admin", record { inherits = "owner"; permissions = "scan:trigger" ∷ "report:export" ∷ [] })
    ∷ []

role_perms_end_example :
    (ps : List String) × (role_perms (suc (length two_roles)) two_roles "owner" [] ≡ some ps)
role_perms_end_example = role_perms_end two_roles "owner"

role_perms_exact_example :
    (has_value ("org:delete" ∷ "scan:trigger" ∷ "report:export" ∷ []) "report:export" ≡ true)
    ↔ ((k : ℕ) × (grants_by k two_roles "owner" "report:export" ≡ true))
unfolding role_perms lookup has_value any dedupe
role_perms_exact_example =
    role_perms_exact two_roles "owner" ("org:delete" ∷ "scan:trigger" ∷ "report:export" ∷ [])
      "report:export" refl

entitled_iff_holds :
    has_value
      (apply_project_type (compose_features ("ctem" ∷ "sast" ∷ []) [] []) project_ctem [])
      "sast"
    ≡ false
unfolding has_value any
entitled_iff_holds = entitled_iff ("ctem" ∷ "sast" ∷ []) [] [] [] project_ctem "sast"

abbrev community : EditionProfile
community = record {
  edition = "community";
  hidden_surfaces = "darkweb" ∷ [];
  unsupported_actions = " darkweb.monitor" ∷ [];
}

abbrev buyer : BillingMode → (features : List String) → Capabilities
buyer mode features = record {
  billing_mode = mode;
  features = features;
  permissions = "scan:trigger" ∷ [];
  edition = "";
  hidden_surfaces = [];
  unsupported_actions = [];
  surfaces = [];
  actions = [];
}

allowed_needs_role_example :
    (has_value (make_set ("scan:trigger" ∷ "report:export" ∷ [])) (demanded "report.build")
      || for_credits (make_set []) "report.build")
    ≡ true
unfolding with_added has_commercial_action lookup select trim_space any insert has_any
allowed_needs_role_example =
    allowed_needs_role community (buyer preview []) ("report:export" ∷ []) "report.build" refl

unsupported_stays_blocked_holds :
    has_commercial_action
      (with_added community (buyer preview []) ("darkweb:monitor" ∷ []))
      "darkweb.monitor"
    ≡ false
unfolding unique_names has_value any select trim_space
unsupported_stays_blocked_holds =
    unsupported_stays_blocked community (buyer preview []) ("darkweb:monitor" ∷ [])
      "darkweb.monitor" refl

-- A guest's AI report, for credits.
report_without_permission :
    has_commercial_action (with_added community (buyer live ("ai_credits" ∷ [])) []) "ai.report"
    ≡ true
unfolding with_added has_commercial_action lookup select trim_space any insert has_any
report_without_permission = refl
