-- ===== src/AdminWeb/Views/HiddenPlans.antt =====
-- HiddenPlanView: the plan without limits, given to one user.
use infinite_image_hosting.Prelude.{ℕ, String, ◌<>◌, true, false, ◌||◌, if◌then◌else◌}
use infinite_image_hosting.Async.Program.{message_or, pure}
use infinite_image_hosting.AdminWeb.Calls
use infinite_image_hosting.AdminWeb.Text.{TextOps, blank}
use infinite_image_hosting.AdminWeb.Page.{
  ◌>>=◌, ◌>>◌, caught, ensured, AdminPage, Handler, set_views, good, bad,
}
use infinite_image_hosting.AdminWeb.Session.{admin_fetch}
use infinite_image_hosting.AdminWeb.Format.{Numbers, number_or}
use infinite_image_hosting.AdminWeb.Cells.{HiddenState}

abbrev set_hidden : (mount : ℕ) → (HiddenState → HiddenState) → Handler (Unit {0})
set_hidden mount f = set_views mount (λ v. record v { hidden = f v.hidden })

module _ (ops : TextOps) (numbers : Numbers) where
  unfoldable pub grant_infinite_max : (seen : AdminPage) → Handler (Unit {0})
  unfolding set_views admin_fetch number_or
  grant_infinite_max seen =
      let cells = seen.views.hidden in
      if blank ops cells.target || blank ops cells.reason
      then set_hidden seen.view_run (λ c. record c { notice = bad "请填写目标用户和审计原因。" })
      else (do
        set_hidden seen.view_run (λ c. record c { submitting = true })
        ensured
            (caught
              (do
                done ← admin_fetch (
                    Calls.grant_plan (ops.trim cells.target)
                      (number_or numbers cells.grant_days 365) (ops.trim cells.reason))
                set_hidden seen.view_run (λ c. record c {
                  notice = good ("已向 " <> (ops.trim cells.target <> " 发放 Infinite Max，并写入审计日志。"));
                  show_confirm = false;
                  target = "";
                  reason = "";
                  grant_days = "365";
                }))
              (λ x.
                set_hidden seen.view_run
                  (λ c. record c { notice = bad (message_or "发放失败，请检查后台服务。" x) })))
            (set_hidden seen.view_run (λ c. record c { submitting = false })))

-- The inputs.
unfoldable pub open_confirm : (seen : AdminPage) → Handler (Unit {0})
unfolding set_views
open_confirm seen = set_hidden seen.view_run (λ c. record c { show_confirm = true })

unfoldable pub close_confirm : (seen : AdminPage) → Handler (Unit {0})
unfolding set_views
close_confirm seen =
    if seen.views.hidden.submitting
    then pure tt
    else set_hidden seen.view_run (λ c. record c { show_confirm = false })

unfoldable pub set_target : (seen : AdminPage) → String → Handler (Unit {0})
unfolding set_views
set_target seen text = set_hidden seen.view_run (λ c. record c { target = text })

unfoldable pub set_hidden_days : (seen : AdminPage) → String → Handler (Unit {0})
unfolding set_views
set_hidden_days seen text = set_hidden seen.view_run (λ c. record c { grant_days = text })

unfoldable pub set_reason : (seen : AdminPage) → String → Handler (Unit {0})
unfolding set_views
set_reason seen text = set_hidden seen.view_run (λ c. record c { reason = text })
