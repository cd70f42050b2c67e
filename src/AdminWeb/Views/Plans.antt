-- ===== src/AdminWeb/Views/Plans.antt =====
-- PlanManageView: the plans on sale.
pub mod Form
pub mod Inputs
pub mod Rounding
use infinite_image_hosting.Prelude.{
  ℕ, ◌+◌, ◌==◌, length, String, ◌<>◌, str_eq, Bool, true, false, not, ◌&&◌, ◌||◌, if◌then◌else◌,
  truthy, ◌or◌, Option, none, some, if_some, is_some, get_or, List, [], ◌∷◌, map, filter, find, any,
}
use infinite_image_hosting.Async.Program.{message_or, Thrown, pure, set_state, fetch, get_state}
use infinite_image_hosting.AdminWeb.Types.{
  AdminOverview, AdminPlan, AdminOrder, AdminSystemConfig, IfpayIntegrationConfig, Notice,
  Visibility, visible, hidden, Quota, success, danger,
}
use infinite_image_hosting.AdminWeb.Calls
use infinite_image_hosting.AdminWeb.Text.{TextOps, blank, join, split_domains}
use infinite_image_hosting.AdminWeb.Page.{
  detach, ◌>>=◌, ◌>>◌, caught, ensured, AdminPage, Handler, set_views, download_text, good, bad,
}
use infinite_image_hosting.AdminWeb.Session.{admin_fetch}
use infinite_image_hosting.AdminWeb.Format.{Numbers}
use infinite_image_hosting.AdminWeb.Cells.{PlanForm, PlansState}
use infinite_image_hosting.AdminWeb.Views.Plans.Form.{plan_form, build_plan_payload}

abbrev set_plans : (mount : ℕ) → (PlansState → PlansState) → Handler (Unit {0})
set_plans mount f = set_views mount (λ v. record v { plans = f v.plans })

unfoldable pub load_plans : (seen : AdminPage) → Handler (Unit {0})
unfolding set_views admin_fetch
load_plans seen =
    caught
      (do
        rows ← admin_fetch Calls.list_plans
        set_plans seen.view_run (λ c. record c { plans = rows }))
      (λ x.
        set_plans seen.view_run
          (λ c. record c { plans = []; notice = bad (message_or "套餐列表读取失败，请检查 API 服务。" x) }))

unfoldable pub open_plan_dialog : (seen : AdminPage) → Option AdminPlan → Handler (Unit {0})
unfolding set_views plan_form
open_plan_dialog seen plan =
    if seen.views.plans.saving_plan
    then pure tt
    else set_plans seen.view_run (λ c. record c { form = plan_form plan; dialog_open = true })

unfoldable pub close_plan_dialog : (seen : AdminPage) → Handler (Unit {0})
unfolding set_views
close_plan_dialog seen =
    if seen.views.plans.saving_plan
    then pure tt
    else set_plans seen.view_run (λ c. record c { dialog_open = false })

unfoldable pub set_form : (seen : AdminPage) → PlanForm → Handler (Unit {0})
unfolding set_views
set_form seen form = set_plans seen.view_run (λ c. record c { form = form })

unfoldable pub toggle_hidden_plans : (seen : AdminPage) → Handler (Unit {0})
unfolding set_views
toggle_hidden_plans seen =
    set_plans seen.view_run
      (λ c. record c { show_hidden_plans = not seen.views.plans.show_hidden_plans })

module _ (ops : TextOps) (numbers : Numbers) where
  unfoldable pub save_plan : (seen : AdminPage) → Handler (Unit {0})
  unfolding set_views admin_fetch load_plans build_plan_payload
  save_plan seen =
      let payload = build_plan_payload ops numbers seen.views.plans.form in
      if seen.views.plans.saving_plan then pure tt else (do
        set_plans seen.view_run (λ c. record c { saving_plan = true })
        ensured
            (caught
              (do
                saved ← admin_fetch (Calls.save_plan payload)
                set_plans seen.view_run (λ c. record c {
                  notice = good ("套餐 " <> (payload.name <> " 已保存。"));
                  dialog_open = false;
                })
                detach (load_plans seen))
              (λ x.
                set_plans seen.view_run
                  (λ c. record c { notice = bad (message_or "套餐保存失败，请检查后台服务。" x) })))
            (set_plans seen.view_run (λ c. record c { saving_plan = false })))

-- `{ ...plan, visibility, purchasable, invite_only }`
unfoldable pub published : AdminPlan → Bool → AdminPlan
published plan publish = record plan {
  visibility = if publish then visible else hidden;
  purchasable = publish;
  invite_only = not publish;
}

unfoldable pub set_plan_publication :
    (seen : AdminPage) → AdminPlan → (publish : Bool) → Handler (Unit {0})
unfolding set_views admin_fetch load_plans published
set_plan_publication seen plan publish =
    if truthy seen.views.plans.unpublishing_slug then pure tt else (do
      set_plans seen.view_run (λ c. record c { unpublishing_slug = plan.slug })
      ensured
          (caught
            (do
              saved ← admin_fetch (Calls.save_plan (published plan publish))
              set_plans seen.view_run (λ c. record c {
                notice = good (plan.name <> (if publish then " 已重新上架。" else " 已下架，前台不再展示或购买。"));
              })
              detach (load_plans seen))
            (λ x.
              set_plans seen.view_run
                (λ c. record c { notice = bad (message_or "套餐上下架失败，请检查后台服务。" x) })))
          (set_plans seen.view_run (λ c. record c { unpublishing_slug = "" })))

abbrev is_hidden : Visibility → Bool
is_hidden visible = false
is_hidden hidden = true

unfoldable pub visible_plans : PlansState → List AdminPlan
visible_plans cells =
    filter
      (λ (plan : AdminPlan).
        not (str_eq plan.slug "infinite-max")
        && (cells.show_hidden_plans || not (is_hidden plan.visibility)))
      cells.plans
