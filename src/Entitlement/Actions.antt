-- ===== src/Entitlement/Actions.antt =====
-- The execution contract of the snapshot: `resolveCommercialActions` and the helpers that it calls.
use flyto_warroom.Prelude.{String, not, ◌&&◌, List, [], ◌∷◌, str_eq, if◌then◌else◌}
use flyto_warroom.Prelude.Dict.{Dict, insert}
use flyto_warroom.Entitlement.{
  ActionAccess, allowed, payment_required, blocked, included, addon_required, credit_required,
  billing_blocked, has_value, has_any,
}

abbrev pub allowed_access : ActionAccess
allowed_access = record {
  state = allowed;
  billing = included;
  reason = "";
  required_action = "";
  required_feature = "";
  required_sku = "";
  paywall_key = "";
}

abbrev pub blocked_access : (reason action : String) → ActionAccess
blocked_access reason action = record {
  state = blocked;
  billing = billing_blocked;
  reason = reason;
  required_action = action;
  required_feature = "";
  required_sku = "";
  paywall_key = "";
}

abbrev pub addon_access : (reason feature sku paywall : String) → ActionAccess
addon_access reason feature sku paywall = record {
  state = payment_required;
  billing = addon_required;
  reason = reason;
  required_action = "";
  required_feature = feature;
  required_sku = sku;
  paywall_key = paywall;
}

-- `put`: the action and its aliases.
unfoldable pub put : List String → ActionAccess → Dict ActionAccess → Dict ActionAccess
put [] access actions = actions
put (name ∷ names) access actions = put names access (insert name access actions)

unfoldable pub role_action_access : List String → (action reason : String) → ActionAccess
role_action_access permissions action reason =
    if has_value permissions action then allowed_access else blocked_access reason action

unfoldable pub addon_action :
    (features permissions : List String)
    → (feature sku key reason required_action role_reason : String) → ActionAccess
addon_action features permissions feature sku key reason required_action role_reason =
    if not (has_value features feature)
    then addon_access reason feature sku key
    else if not (str_eq required_action "") && not (has_value permissions required_action)
    then blocked_access role_reason required_action
    else allowed_access

unfoldable pub report_access : (features permissions : List String) → ActionAccess
report_access features permissions =
    if not (has_any features ("report_export" ∷ "executive_report" ∷ []))
    then addon_access
        "Report generation and export require a report add-on, Pro plan, or included Enterprise bundle."
        "report_export" "flyto_report_export_monthly" "report_export"
    else if not (has_value permissions "report:export")
    then blocked_access "The current role is not allowed to export reports." "report:export"
    else allowed_access

unfoldable pub red_team_access : (features permissions : List String) → ActionAccess
red_team_access features permissions =
    if not (has_value features "red_team")
    then addon_access
        "Active red-team and pentest execution require the Red Team add-on or Enterprise bundle."
        "red_team" "flyto_red_team_monthly" "red_team"
    else if not (has_value permissions "pentest:run")
    then blocked_access "The current role is not allowed to run active pentest scans." "pentest:run"
    else allowed_access

unfoldable pub ai_report_access : (features permissions : List String) → ActionAccess
ai_report_access features permissions =
    if has_value features "ai_credits" && not (has_value features "report_export")
    then record allowed_access {
      billing = credit_required;
      reason = "AI report generation will consume AI credits.";
      required_feature = "ai_credits";
      required_sku = "flyto_ai_credits_pack";
      paywall_key = "ai_credits";
    }
    else if not (has_value features "report_export")
    then record allowed_access {
      state = payment_required;
      billing = credit_required;
      reason = "AI report generation requires report entitlement or AI credits.";
      required_sku = "flyto_ai_credits_pack";
      paywall_key = "ai_credits";
    }
    else if not (has_value permissions "report:export")
    then blocked_access "The current role is not allowed to generate AI reports." "report:export"
    else allowed_access

unfoldable pub darkweb_access : (features permissions : List String) → ActionAccess
unfolding addon_action
darkweb_access features permissions =
    addon_action features permissions "darkweb_intel" "flyto_darkweb_monthly" "darkweb_intel"
      "Darkweb monitoring requires the Darkweb add-on or Enterprise bundle." "darkweb:monitor"
      "The current role is not allowed to configure darkweb monitoring."

unfoldable pub ai_access : (features permissions : List String) → ActionAccess
unfolding addon_action
ai_access features permissions =
    addon_action features permissions "ai_fix_plan" "flyto_ai_fix_monthly" "ai_fix_plan"
      "AI remediation requires an AI add-on or a plan that includes AI." "autofix:open_pr"
      "The current role is not allowed to request AI remediation."

unfoldable pub ai_red_team_access : (features permissions : List String) → ActionAccess
unfolding addon_action
ai_red_team_access features permissions =
    addon_action features permissions "red_team" "flyto_red_team_monthly" "red_team"
      "AI red-team planning requires the Red Team add-on or Enterprise bundle." "pentest:run"
      "The current role is not allowed to run AI red-team planning."

unfoldable pub evidence_access : (features permissions : List String) → ActionAccess
unfolding addon_action
evidence_access features permissions =
    addon_action features permissions "report_export" "flyto_report_export_monthly" "report_export"
      "Evidence export requires report/export entitlement." "report:export"
      "The current role is not allowed to export evidence."

-- The actions of the roles.
unfoldable pub with_role_actions :
    (permissions : List String) → Dict ActionAccess → Dict ActionAccess
unfolding put role_action_access
with_role_actions permissions actions =
    let run = λ (action reason : String). role_action_access permissions action reason in
    put ("scan.container.run" ∷ "scan:trigger_container" ∷ [])
      (run "scan:trigger_container" "The current role is not allowed to run container scans.")
      (put ("scan.cloud.run" ∷ "scan:trigger_cloud" ∷ [])
        (run "scan:trigger_cloud" "The current role is not allowed to run cloud scans.")
        (put ("scan.external.run" ∷ "scan:trigger_external" ∷ [])
          (run "scan:trigger_external" "The current role is not allowed to run external scans.")
          (put ("scan.code.run" ∷ "scan:trigger_code" ∷ [])
            (run "scan:trigger_code" "The current role is not allowed to run code scans.")
            (put ("warroom.verify" ∷ "warroom:verify" ∷ [])
              (run "scan:trigger"
                "The current role is not allowed to run deterministic product verification.")
              (put ("scan.run" ∷ "scan:trigger" ∷ [])
                (run "scan:trigger" "The current role is not allowed to run scans.") actions)))))

unfoldable pub commercial_actions : (features permissions : List String) → Dict ActionAccess
unfolding put report_access with_role_actions red_team_access darkweb_access ai_access
    ai_report_access ai_red_team_access evidence_access
commercial_actions features permissions =
    let report = report_access features permissions in
    let reports = put ("report.build" ∷ "report.export" ∷ "report:export" ∷ []) report [] in
    let ai = ai_access features permissions in
    put ("evidence.export" ∷ []) (evidence_access features permissions) (
      put ("ai.redteam.plan" ∷ []) (ai_red_team_access features permissions) (
        put ("ai.report" ∷ []) (ai_report_access features permissions) (
          put ("ai.chat" ∷ "ai.fix" ∷ "ai.agent_tool.call" ∷ "ai.workflow_mcp.call" ∷ []) ai (
            put ("darkweb.monitor" ∷ "darkweb:monitor" ∷ []) (darkweb_access features permissions) (
              put ("redteam.run" ∷ "pentest:run" ∷ []) (red_team_access features permissions)
                (with_role_actions permissions reports))))))
