-- ===== src/AdminWeb/Views/Invites.antt =====
-- InviteCampaignView: invitation campaigns.
use infinite_image_hosting.Prelude.{
  String, ◌<>◌, str_eq, Bool, true, false, not, if◌then◌else◌, truthy, Option, none, some, if_some,
  List, [], ◌∷◌, find, any,
}
use infinite_image_hosting.Async.Program.{message_or, pure}
use infinite_image_hosting.AdminWeb.Types.{AdminPlan, Visibility, visible, hidden}
use infinite_image_hosting.AdminWeb.Calls
use infinite_image_hosting.AdminWeb.Text.{TextOps, blank}
use infinite_image_hosting.AdminWeb.Page.{
  ◌>>=◌, ◌>>◌, caught, ensured, AdminPage, Handler, set_views, good, bad,
}
use infinite_image_hosting.AdminWeb.Session.{admin_fetch}
use infinite_image_hosting.UserWeb.Format.{show}
use infinite_image_hosting.AdminWeb.Format.{Numbers, number_or}
use infinite_image_hosting.AdminWeb.Replies.{Invite}
use infinite_image_hosting.AdminWeb.Cells.{InviteState}
use infinite_image_hosting.AdminWeb.Cells.Start.{invite_start}

unfoldable pub set_invite : (seen : AdminPage) → (InviteState → InviteState) → Handler (Unit {0})
unfolding set_views
set_invite seen f = set_views seen.view_run (λ v. record v { invite = f v.invite })

abbrev is_visible : Visibility → Bool
is_visible visible = true
is_visible hidden = false

abbrev or_else : Option AdminPlan → Option AdminPlan → Option AdminPlan
or_else o p = if_some o p (λ x. some x)

abbrev head : List AdminPlan → Option AdminPlan
head [] = none
head (x ∷ xs) = some x

-- The plan that the form falls back to where `plan_slug` is none of `rows`.
unfoldable pub fallback_plan : List AdminPlan → Option AdminPlan
fallback_plan rows =
    or_else (find (λ (plan : AdminPlan). str_eq plan.slug "pro") rows)
      (or_else (find (λ (plan : AdminPlan). is_visible plan.visibility) rows) (head rows))

unfoldable pub load_invite_plans : (seen : AdminPage) → Handler (Unit {0})
unfolding set_invite admin_fetch fallback_plan
load_invite_plans seen =
    caught
      (do
        rows ← admin_fetch Calls.list_plans
        set_invite seen (λ c. record c { plans = rows })
        if any (λ (plan : AdminPlan). str_eq plan.slug seen.views.invite.plan_slug) rows
            then pure tt
            else if_some (fallback_plan rows) (pure tt)
                (λ plan. set_invite seen (λ c. record c { plan_slug = plan.slug })))
      (λ x.
        set_invite seen (λ c. record c { notice = bad (message_or "套餐列表读取失败，邀请活动暂时无法选择套餐。" x) }))

-- `reset` leaves `submitting` and the plans as they are.
unfoldable pub reset_invite : (seen : AdminPage) → Handler (Unit {0})
unfolding set_invite
reset_invite seen =
    set_invite seen (λ c. record invite_start { submitting = c.submitting; plans = c.plans })

-- The choice of a plan in the list.
unfoldable pub choose_plan : (seen : AdminPage) → String → Handler (Unit {0})
unfolding set_invite
choose_plan seen slug = set_invite seen (λ c. record c {
  plan_slug = slug;
  require_admin_approval = if str_eq slug "infinite-max" then true else c.require_admin_approval;
})

module _ (ops : TextOps) (numbers : Numbers) where
  -- What `createInvite` sends, less the constants `per_email_limit`, `allow_stacking` and `status`.
  unfoldable pub invite_payload : InviteState → Invite
  unfolding number_or
  invite_payload cells = record {
    name = ops.trim cells.name;
    code = ops.trim cells.code;
    plan_slug = cells.plan_slug;
    grant_days = number_or numbers cells.grant_days 30;
    total_limit = number_or numbers cells.total_limit 100;
    per_user_limit = number_or numbers cells.per_user_limit 1;
    per_ip_limit = number_or numbers cells.per_ip_limit 1;
    per_device_limit = if cells.strict_device then 1 else 0;
    new_users_only = cells.new_users_only;
    require_email_verified = cells.require_email_verified;
    require_oauth_binding = cells.require_oauth_binding;
    require_admin_approval = cells.require_admin_approval;
    notes =
        if str_eq cells.plan_slug "infinite-max"
        then "高风险隐藏套餐邀请，必须配合人工审计和风控监控。"
        else "运营后台创建的邀请活动。";
  }

  unfoldable pub create_invite : (seen : AdminPage) → Handler (Unit {0})
  unfolding set_invite admin_fetch invite_payload show
  create_invite seen =
      let cells = seen.views.invite in
      if cells.submitting
      then pure tt
      else if blank ops cells.name
      then set_invite seen (λ c. record c { notice = bad "请填写活动名称。" })
      else if not (truthy cells.plan_slug)
      then set_invite seen (λ c. record c { notice = bad "请选择赠送套餐。" })
      else (do
        set_invite seen (λ c. record c { submitting = true })
        ensured
            (caught
              (do
                invite ← admin_fetch (Calls.create_invite (invite_payload cells))
                set_invite seen (λ c. record c {
                  notice = good (
                      "邀请活动已生成："
                      <> (invite.code
                          <> ("，套餐 "
                              <> (invite.plan_slug
                                  <> ("，有效权益 " <> (show invite.grant_days <> " 天。"))))));
                }))
              (λ x.
                set_invite seen (λ c. record c { notice = bad (message_or "创建失败，请检查后台服务。" x) })))
            (set_invite seen (λ c. record c { submitting = false })))
