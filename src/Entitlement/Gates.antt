-- ===== src/Entitlement/Gates.antt =====
-- The actions of the snapshot and the permissions of roles.
use flyto_warroom.Prelude.{
  ◌≡◌, refl, String, Bool, true, false, not, ◌&&◌, ◌||◌, Option, none, some, List, [], ◌∷◌, arith,
  All, any, str_eq, eq_iff, eq_refl, if◌then◌else◌, if_elim,
}
use flyto_warroom.Prelude.Dict.{Dict, insert, lookup}
use flyto_warroom.Entitlement.{
  ActionAccess, ActionState, allowed, payment_required, has_value, has_any,
}
use flyto_warroom.Entitlement.Actions.{
  put, blocked_access, allowed_access, addon_access, commercial_actions, with_role_actions,
  role_action_access, addon_action, report_access, red_team_access, darkweb_access, ai_access,
  ai_report_access, ai_red_team_access, evidence_access,
}
use flyto_warroom.Entitlement.Snapshot.{
  map_values, preview_action, preview_by_state, preview_unpaid, preview_required, block_each,
}

-- What a role needs for an action, by the product's table.
abbrev pub demanded_of : List (String × String)
demanded_of =
    ("report.build", "report:export")
    ∷ ("report.export", "report:export")
    ∷ ("report:export", "report:export")
    ∷ ("scan.run", "scan:trigger")
    ∷ ("scan:trigger", "scan:trigger")
    ∷ ("warroom.verify", "scan:trigger")
    ∷ ("warroom:verify", "scan:trigger")
    ∷ ("scan.code.run", "scan:trigger_code")
    ∷ ("scan:trigger_code", "scan:trigger_code")
    ∷ ("scan.external.run", "scan:trigger_external")
    ∷ ("scan:trigger_external", "scan:trigger_external")
    ∷ ("scan.cloud.run", "scan:trigger_cloud")
    ∷ ("scan:trigger_cloud", "scan:trigger_cloud")
    ∷ ("scan.container.run", "scan:trigger_container")
    ∷ ("scan:trigger_container", "scan:trigger_container")
    ∷ ("redteam.run", "pentest:run")
    ∷ ("pentest:run", "pentest:run")
    ∷ ("ai.redteam.plan", "pentest:run")
    ∷ ("darkweb.monitor", "darkweb:monitor")
    ∷ ("darkweb:monitor", "darkweb:monitor")
    ∷ ("ai.chat", "autofix:open_pr")
    ∷ ("ai.fix", "autofix:open_pr")
    ∷ ("ai.agent_tool.call", "autofix:open_pr")
    ∷ ("ai.workflow_mcp.call", "autofix:open_pr")
    ∷ ("ai.report", "report:export")
    ∷ ("evidence.export", "report:export")
    ∷ []

pub some_eq : {A : Type 0} {x y : A} → some x ≡ some y → x ≡ y
some_eq e = ground arith

unfoldable pub named : Option String → String
named none = ""
named (some p) = p

unfoldable pub demanded : String → String
unfolding lookup named
demanded action = named (lookup action demanded_of)

abbrev is_allowed_state : ActionState → Bool
is_allowed_state allowed = true
is_allowed_state _ = false

abbrev is_unpaid_state : ActionState → Bool
is_unpaid_state payment_required = true
is_unpaid_state _ = false

-- Reports that are written for AI credits.
abbrev pub for_credits : (features : List String) → (action : String) → Bool
for_credits features action =
    str_eq action "ai.report"
    && (has_value features "ai_credits" && not (has_value features "report_export"))

module _ (features permissions : List String) where
  unfoldable pub is_gated : String → ActionAccess → Bool
  is_gated key a =
      (not (is_allowed_state a.state)
        || (has_value permissions (demanded key) || for_credits features key))
      && ((not (is_unpaid_state a.state)
            || (str_eq (preview_required key) (demanded key) && not (str_eq (demanded key) "")))
          && (str_eq a.required_action "" || str_eq a.required_action (demanded key)))

  unfoldable pub AllGated : Dict ActionAccess → Type 0
  AllGated d = All (λ e. is_gated e.0 e.1 ≡ true) d

  pub insert-gated :
      (k : String) (a : ActionAccess) (d : Dict ActionAccess)
      → is_gated k a ≡ true
      → AllGated d
      → AllGated (insert k a d)
  unfolding insert AllGated
  insert-gated k a [] h all = (h, tt)
  insert-gated k a ((j, b) ∷ d) h (g, all) =
      if_elim AllGated (str_eq j k) (λ e. (h, all)) (λ e. (g, insert-gated k a d h all))

  put-gated :
      (ks : List String) (a : ActionAccess) (d : Dict ActionAccess)
      → All (λ k. is_gated k a ≡ true) ks
      → AllGated d
      → AllGated (put ks a d)
  unfolding put
  put-gated [] a d hs all = all
  put-gated (k ∷ ks) a d (h, hs) all = put-gated ks a (insert k a d) hs (insert-gated k a d h all)

  pub map_values-gated :
      (f : String → ActionAccess → ActionAccess) (d : Dict ActionAccess)
      → ((k : String) (a : ActionAccess) → is_gated k a ≡ true → is_gated k (f k a) ≡ true)
      → AllGated d
      → AllGated (map_values f d)
  unfolding map_values AllGated
  map_values-gated f [] keep all = tt
  map_values-gated f ((k, a) ∷ d) keep (g, all) = (keep k a g, map_values-gated f d keep all)

  pub preview-gated :
      (k : String) (a : ActionAccess)
      → is_gated k a ≡ true
      → is_gated k (preview_action permissions k a) ≡ true
  unfolding preview_action preview_by_state preview_unpaid is_gated
  preview-gated k a g = ground (
    arith,
    g,
    eq_iff (preview_required k) (demanded k),
    eq_iff (demanded k) "",
    eq_iff (preview_required k) "",
  )

  pub block_each-gated :
      (reason : String) (names : List String) (d : Dict ActionAccess)
      → AllGated d
      → AllGated (block_each reason names d)
  unfolding block_each is_gated
  block_each-gated reason [] d all = all
  block_each-gated reason (name ∷ names) d all =
      block_each-gated reason names (insert name (blocked_access reason "") d)
        (insert-gated name (blocked_access reason "") d refl all)

  allowed-gated :
      (key : String)
      → has_value permissions (demanded key) ≡ true
      → is_gated key allowed_access ≡ true
  unfolding is_gated
  allowed-gated key h = ground arith

  blocked-gated : (reason key : String) → is_gated key (blocked_access reason (demanded key)) ≡ true
  unfolding is_gated
  blocked-gated reason key = ground (arith, eq_refl (demanded key))

  -- The preview asks for the permission that the role needs, and it needs one.
  IsPriced : String → Type 0
  IsPriced key =
      (str_eq (preview_required key) (demanded key) ≡ true) × (str_eq (demanded key) "" ≡ false)

  addon-gated :
      (reason feature sku paywall key : String)
      → IsPriced key
      → is_gated key (addon_access reason feature sku paywall) ≡ true
  unfolding is_gated IsPriced
  addon-gated reason feature sku paywall key (same, some_role) = ground arith

  role-gated :
      (reason key : String)
      → is_gated key (role_action_access permissions (demanded key) reason) ≡ true
  unfolding role_action_access
  role-gated reason key =
      if_elim (λ a. is_gated key a ≡ true) (has_value permissions (demanded key))
        (allowed-gated key) (λ e. blocked-gated reason key)

  -- Paid for, then permitted.
  paid_then_permitted :
      (unpaid : Bool) (reason feature sku paywall role_reason key : String)
      → IsPriced key
      → is_gated key (
          if unpaid
          then addon_access reason feature sku paywall
          else if not (has_value permissions (demanded key))
          then blocked_access role_reason (demanded key)
          else allowed_access)
        ≡ true
  paid_then_permitted unpaid reason feature sku paywall role_reason key priced =
      if_elim (λ a. is_gated key a ≡ true) unpaid
        (λ e. addon-gated reason feature sku paywall key priced)
        (λ e.
          if_elim (λ a. is_gated key a ≡ true) (not (has_value permissions (demanded key)))
            (λ q. blocked-gated role_reason key) (λ q. allowed-gated key (ground arith)))

  addon_action-gated :
      (feature sku paywall reason role_reason key : String)
      → IsPriced key
      → is_gated key
          (addon_action features permissions feature sku paywall reason (demanded key) role_reason)
        ≡ true
  unfolding addon_action IsPriced
  addon_action-gated feature sku paywall reason role_reason key priced =
      if_elim (λ a. is_gated key a ≡ true) (not (has_value features feature))
        (λ e. addon-gated reason feature sku paywall key priced)
        (λ e.
          if_elim (λ a. is_gated key a ≡ true)
            (not (str_eq (demanded key) "") && not (has_value permissions (demanded key)))
            (λ q. blocked-gated role_reason key)
            (λ q. allowed-gated key (ground (arith, priced.1))))

  ai_report-gated : is_gated "ai.report" (ai_report_access features permissions) ≡ true
  unfolding ai_report_access is_gated demanded preview_required lookup named has_value any
  ai_report-gated =
      if_elim (λ a. is_gated "ai.report" a ≡ true)
        (has_value features "ai_credits" && not (has_value features "report_export"))
        (λ e. ground arith)
        (λ e.
          if_elim (λ a. is_gated "ai.report" a ≡ true) (not (has_value features "report_export"))
            (λ q. refl)
            (λ q.
              if_elim (λ a. is_gated "ai.report" a ≡ true)
                (not (has_value permissions "report:export")) (λ r. refl) (λ r. ground arith)))

  role_actions-gated :
      (d : Dict ActionAccess) → AllGated d → AllGated (with_role_actions permissions d)
  unfolding with_role_actions demanded lookup named
  role_actions-gated d all =
      put-gated ("scan.container.run" ∷ "scan:trigger_container" ∷ []) _ _
        (role-gated _ "scan.container.run", (role-gated _ "scan:trigger_container", tt))
        (put-gated ("scan.cloud.run" ∷ "scan:trigger_cloud" ∷ []) _ _
          (role-gated _ "scan.cloud.run", (role-gated _ "scan:trigger_cloud", tt))
          (put-gated ("scan.external.run" ∷ "scan:trigger_external" ∷ []) _ _
            (role-gated _ "scan.external.run", (role-gated _ "scan:trigger_external", tt))
            (put-gated ("scan.code.run" ∷ "scan:trigger_code" ∷ []) _ _
              (role-gated _ "scan.code.run", (role-gated _ "scan:trigger_code", tt))
              (put-gated ("warroom.verify" ∷ "warroom:verify" ∷ []) _ _
                (role-gated _ "warroom.verify", (role-gated _ "warroom:verify", tt))
                (put-gated ("scan.run" ∷ "scan:trigger" ∷ []) _ _
                  (role-gated _ "scan.run", (role-gated _ "scan:trigger", tt)) all)))))

  pub actions-gated : AllGated (commercial_actions features permissions)
  unfolding commercial_actions report_access red_team_access darkweb_access ai_access
      ai_red_team_access evidence_access demanded lookup named preview_required has_value any
      IsPriced AllGated
  actions-gated =
      put-gated ("evidence.export" ∷ []) _ _
        (addon_action-gated _ _ _ _ _ "evidence.export" (refl, refl), tt)
        (put-gated ("ai.redteam.plan" ∷ []) _ _
          (addon_action-gated _ _ _ _ _ "ai.redteam.plan" (refl, refl), tt)
          (put-gated ("ai.report" ∷ []) _ _ (ai_report-gated, tt)
            (put-gated ("ai.chat" ∷ "ai.fix" ∷ "ai.agent_tool.call" ∷ "ai.workflow_mcp.call" ∷ []) _
              _
              (
                addon_action-gated _ _ _ _ _ "ai.chat" (refl, refl),
                (
                  addon_action-gated _ _ _ _ _ "ai.fix" (refl, refl),
                  (
                    addon_action-gated _ _ _ _ _ "ai.agent_tool.call" (refl, refl),
                    (addon_action-gated _ _ _ _ _ "ai.workflow_mcp.call" (refl, refl), tt),
                  ),
                ),
              )
              (put-gated ("darkweb.monitor" ∷ "darkweb:monitor" ∷ []) _ _
                (
                  addon_action-gated _ _ _ _ _ "darkweb.monitor" (refl, refl),
                  (addon_action-gated _ _ _ _ _ "darkweb:monitor" (refl, refl), tt),
                )
                (put-gated ("redteam.run" ∷ "pentest:run" ∷ []) _ _
                  (
                    paid_then_permitted (not (has_value features "red_team")) _ _ _ _ _
                        "redteam.run" (refl, refl),
                    (
                      paid_then_permitted (not (has_value features "red_team")) _ _ _ _ _
                          "pentest:run" (refl, refl),
                      tt,
                    ),
                  )
                  (role_actions-gated _ (
                    put-gated ("report.build" ∷ "report.export" ∷ "report:export" ∷ []) _ _
                      (
                        paid_then_permitted
                            (not (has_any features ("report_export" ∷ "executive_report" ∷ []))) _ _
                            _ _ _ "report.build" (refl, refl),
                        (
                          paid_then_permitted
                              (not (has_any features ("report_export" ∷ "executive_report" ∷ []))) _
                              _ _ _ _ "report.export" (refl, refl),
                          (
                            paid_then_permitted
                                (not (has_any features ("report_export" ∷ "executive_report" ∷ [])))
                                _ _ _ _ _ "report:export" (refl, refl),
                            tt,
                          ),
                        ),
                      )
                      tt)))))))
