-- ===== src/Access.antt =====
-- internal/access/access.go: `Require`, the check of a principal's features and permissions.
pub mod Complete
mod Tests
use flyto_warroom.Prelude.{
  String, Bool, true, false, not, ◌&&◌, ◌||◌, List, any, str_eq, to_lower, trim_space,
  if◌then◌else◌,
}

pub data ScopeType : Type 0 where
  scope_workspace scope_org scope_global : ScopeType
  scope_other : String → ScopeType

abbrev pub action_sensitive_evidence_read : String
action_sensitive_evidence_read = "sensitive_evidence:read"

pub record Principal : Type 0 where
  pub user_id : String
  pub role : String
  pub features : List String
  pub permissions : List String

pub record Resource : Type 0 where
  pub kind : String
  pub id : String
  pub surface : String
  pub visibility : String
  pub sensitivity : String

pub record Request : Type 0 where
  pub principal : Principal
  pub scope_type : ScopeType
  pub scope_id : String
  pub action : String
  pub required_feature : String
  pub resource : Resource

pub record Decision : Type 0 where
  pub allow : Bool
  pub reason : String
  pub required_feature : String
  pub required_action : String
  pub audit_required : Bool

unfoldable pub contains : List String → String → Bool
contains items want = any (λ item. str_eq item want) items

-- The string with its case folded and its spaces trimmed is one of the four.
is_sensitive_word : String → Bool
is_sensitive_word v =
    str_eq v "secret" || str_eq v "restricted" || str_eq v "confidential" || str_eq v "sensitive"

unfoldable pub sensitive : String → Bool
unfolding is_sensitive_word
sensitive v = is_sensitive_word (to_lower (trim_space v))

unfoldable pub deny : String → String → String → Decision
deny reason feature action = record {
  allow = false;
  reason = reason;
  required_feature = feature;
  required_action = action;
  audit_required = false;
}

abbrev pub is_global : ScopeType → Bool
is_global scope_global = true
is_global _ = false

abbrev pub is_blank : String → Bool
is_blank s = str_eq (trim_space s) ""

unfoldable pub require : Request → Decision
unfolding deny
require req =
    if is_blank req.principal.user_id
    then deny "unauthenticated" "" ""
    else if not (is_global req.scope_type) && is_blank req.scope_id
    then deny "missing_scope" "" ""
    else if not (str_eq req.required_feature "")
        && not (contains req.principal.features req.required_feature)
    then deny "feature_required" req.required_feature ""
    else if not (str_eq req.action "") && not (contains req.principal.permissions req.action)
    then deny "action_required" "" req.action
    else if sensitive req.resource.sensitivity
        && not (contains req.principal.permissions action_sensitive_evidence_read)
    then record {
      allow = false;
      reason = "sensitive_evidence_required";
      required_feature = "";
      required_action = action_sensitive_evidence_read;
      audit_required = true;
    }
    else record {
      allow = true;
      reason = "allow";
      required_feature = "";
      required_action = "";
      audit_required = sensitive req.resource.sensitivity;
    }
