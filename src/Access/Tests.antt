-- ===== src/Access/Tests.antt =====
-- Runs of `Require`, and its theorems at concrete inputs.
use flyto_warroom.Prelude.{◌≡◌, ◌↔◌, refl, true, [], ◌∷◌, any, trim_space, to_lower}
use flyto_warroom.Access.{Request, scope_org, contains, sensitive, require}
use flyto_warroom.Access.Complete.{Demands, BasicDemands, require_allows_iff, require_audits_iff}

-- A member asks for a restricted report.
abbrev report_request : Request
report_request = record {
  principal = record {
    user_id = "u1";
    role = "member";
    features = "reports" ∷ [];
    permissions = "report:view" ∷ [];
  };
  scope_type = scope_org;
  scope_id = "o1";
  action = "report:view";
  required_feature = "reports";
  resource = record {
    kind = "report";
    id = "r1";
    surface = "code";
    visibility = "";
    sensitivity = " Restricted ";
  };
}

report_denied : (require report_request).reason ≡ "sensitive_evidence_required"
unfolding require contains any sensitive trim_space to_lower
report_denied = refl

require_allows_iff_example : ((require report_request).allow ≡ true) ↔ Demands report_request
require_allows_iff_example = require_allows_iff report_request

require_audits_iff_holds :
    ((require report_request).audit_required ≡ true)
    ↔ (BasicDemands report_request × (sensitive " Restricted " ≡ true))
require_audits_iff_holds = require_audits_iff report_request
