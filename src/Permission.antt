-- ===== src/Permission.antt =====
-- internal/permission/engine.go: roles, their permissions, and the access check. The stringly typed
-- `Role`, `Visibility` and `Sensitivity` are data types with a constructor for each declared
-- constant, `unset` for the empty string, and `other` for any further string.
pub mod Inherit
pub mod Access
pub mod Chain
pub mod Gaps
mod Tests
use flyto_warroom.Prelude.{
  ℕ, String, Bool, true, false, List, [], ◌∷◌, ltb, any, str_eq, if◌then◌else◌,
}

pub data Role : Type 0 where
  owner admin member viewer guest : Role
  other : String → Role

pub data Visibility : Type 0 where
  unset public workspace project private restricted : Visibility
  other : String → Visibility

pub data Sensitivity : Type 0 where
  unset open_access internal confidential secret : Sensitivity
  other : String → Sensitivity

pub record AccessResult : Type 0 where
  pub can_access : Bool
  pub audit_required : Bool
  pub reason : String

pub record AccessRequest : Type 0 where
  pub user_role : Role
  pub visibility : Visibility
  pub sensitivity : Sensitivity
  pub is_project_member : Bool
  pub is_owner : Bool

-- A role that the map lacks has the value 0.
unfoldable pub role_hierarchy : Role → ℕ
role_hierarchy owner = 5
role_hierarchy admin = 4
role_hierarchy member = 3
role_hierarchy viewer = 2
role_hierarchy guest = 1
role_hierarchy (Role.other s) = 0

-- A role that the map lacks has no list, and so no permission: `viewer` is one of these.
unfoldable pub role_permissions : Role → List String
role_permissions owner =
    "page.view" ∷ "page.create" ∷ "page.edit" ∷ "page.delete" ∷ "folder.create" ∷ "folder.edit"
    ∷ "folder.delete" ∷ "comment.view" ∷ "comment.create" ∷ "comment.edit" ∷ "comment.delete"
    ∷ "database.view" ∷ "database.create" ∷ "database.edit" ∷ "database.delete" ∷ "webhook.create"
    ∷ "webhook.edit" ∷ "webhook.delete" ∷ "member.invite" ∷ "member.remove" ∷ "workspace.settings"
    ∷ "workspace.delete" ∷ "workspace.transfer" ∷ "ai.use" ∷ "trash.view" ∷ "trash.restore"
    ∷ "resource.upload" ∷ "resource.classify" ∷ "resource.delete" ∷ "resource.share"
    ∷ "resource.view_confidential" ∷ "resource.view_secret" ∷ "project.create" ∷ "project.edit"
    ∷ "project.delete" ∷ "billing.manage" ∷ "audit.view" ∷ []
role_permissions admin =
    "page.view" ∷ "page.create" ∷ "page.edit" ∷ "page.delete" ∷ "folder.create" ∷ "folder.edit"
    ∷ "folder.delete" ∷ "comment.view" ∷ "comment.create" ∷ "comment.edit" ∷ "comment.delete"
    ∷ "database.view" ∷ "database.create" ∷ "database.edit" ∷ "database.delete" ∷ "webhook.create"
    ∷ "webhook.edit" ∷ "member.invite" ∷ "member.remove" ∷ "workspace.settings" ∷ "ai.use"
    ∷ "trash.view" ∷ "trash.restore" ∷ "resource.upload" ∷ "resource.classify" ∷ "resource.delete"
    ∷ "resource.share" ∷ "resource.view_confidential" ∷ "project.create" ∷ "project.edit"
    ∷ "audit.view" ∷ []
role_permissions member =
    "page.view" ∷ "page.create" ∷ "page.edit" ∷ "folder.create" ∷ "folder.edit" ∷ "comment.view"
    ∷ "comment.create" ∷ "comment.edit" ∷ "database.view" ∷ "database.create" ∷ "database.edit"
    ∷ "ai.use" ∷ "trash.view" ∷ "resource.upload" ∷ "resource.share" ∷ "project.create" ∷ []
role_permissions guest = "page.view" ∷ "comment.view" ∷ "database.view" ∷ []
role_permissions viewer = []
role_permissions (Role.other s) = []

unfoldable pub has_permission : Role → String → Bool
has_permission role perm = any (λ p. str_eq p perm) (role_permissions role)

-- The result of a gate: the reason for which it denies, or that it lets the request pass.
pub data Gate : Type 0 where
  pass : Gate
  stop : String → Gate

visibility_gate : Visibility → AccessRequest → Gate
visibility_gate workspace req =
    if ltb (role_hierarchy req.user_role) 1 then stop "workspace member required" else pass
visibility_gate project req = if req.is_project_member then pass else stop "project member required"
visibility_gate private req = if req.is_owner then pass else stop "owner only"
visibility_gate restricted req = if req.is_owner then pass else stop "restricted access"
visibility_gate public req = pass
visibility_gate unset req = pass
visibility_gate (Visibility.other s) req = pass

sensitivity_gate : Sensitivity → AccessRequest → AccessResult
sensitivity_gate confidential req =
    if has_permission req.user_role "resource.view_confidential"
    then record { can_access = true; audit_required = true; reason = "" }
    else record { can_access = false; audit_required = true; reason = "confidential access denied" }
sensitivity_gate secret req =
    if has_permission req.user_role "resource.view_secret"
    then record { can_access = true; audit_required = true; reason = "" }
    else record { can_access = false; audit_required = true; reason = "secret access denied" }
sensitivity_gate unset req = record { can_access = true; audit_required = false; reason = "" }
sensitivity_gate open_access req = record { can_access = true; audit_required = false; reason = "" }
sensitivity_gate internal req = record { can_access = true; audit_required = false; reason = "" }
sensitivity_gate (Sensitivity.other s) req = record {
  can_access = true;
  audit_required = false;
  reason = "";
}

after_visibility : Gate → AccessRequest → AccessResult
unfolding sensitivity_gate
after_visibility (stop reason) req = record {
  can_access = false;
  audit_required = false;
  reason = reason;
}
after_visibility pass req = sensitivity_gate req.sensitivity req

unfoldable pub resolve_access : AccessRequest → AccessResult
unfolding visibility_gate after_visibility
resolve_access req = after_visibility (visibility_gate req.visibility req) req
