-- ===== src/UserWeb/Views/Pricing.antt =====
-- PricingView: the user's orders and the checkout of a plan.
pub mod Orders
use infinite_image_hosting.Prelude.{
  ℕ, ◌+◌, String, ◌<>◌, true, false, not, ◌==◌, str_eq, if◌then◌else◌, truthy, [],
}
use infinite_image_hosting.Async.Program.{set_state, fetch, try_catch, try_finally, ◌>>=◌, ◌>>◌}
use infinite_image_hosting.UserWeb.Http
use infinite_image_hosting.UserWeb.Types.{BillingCycle, TagType, warning, danger}
use infinite_image_hosting.UserWeb.Page.{Page, Handler, PricingState}
use infinite_image_hosting.UserWeb.App.Account.{handle_checkout}
use infinite_image_hosting.UserWeb.Http.Wire.{cycle_name}

unfoldable pub set_pricing : (PricingState → PricingState) → Handler (Unit {0})
set_pricing f = set_state (λ s. record s { pricing = f s.pricing })

unfoldable pub refresh_orders : (token : String) → Handler (Unit {0})
refresh_orders token =
    if not (truthy token) then set_pricing (λ p. record p { orders = [] }) else (do
      set_pricing (λ p. record p { orders_loading = true })
      try_finally
          (try_catch
            (do
              rows ← fetch (Http.list_orders token)
              set_pricing (λ p. record p { orders = rows }))
            (λ _. set_pricing (λ p. record p { orders = [] })))
          (set_pricing (λ p. record p { orders_loading = false })))

-- What the effect's run does while it is the live one: `if (!cancelled)`.
abbrev while_live : ℕ → (PricingState → PricingState) → Handler (Unit {0})
while_live run f = set_pricing (λ p. if p.orders_run == run then f p else p)

-- The effect on the token and the refresh key of the render `seen`.
unfoldable pub orders_effect : (seen : Page) → Handler (Unit {0})
orders_effect seen = do
  let run = seen.pricing.orders_run + 1
  set_pricing (λ p. record p { orders_run = run; orders_loading = true })
  if not (truthy seen.token)
      then set_pricing (λ p. record p { orders = []; orders_loading = false })
      else try_finally
          (try_catch
            (do
              rows ← fetch (Http.list_orders seen.token)
              while_live run (λ p. record p { orders = rows }))
            (λ _. while_live run (λ p. record p { orders = [] })))
          (while_live run (λ p. record p { orders_loading = false }))

abbrev pub checkout_key : String → BillingCycle → String
checkout_key plan_slug cycle = plan_slug <> (":" <> cycle_name cycle)

unfoldable pub checkout : (seen : Page) → String → BillingCycle → Handler (Unit {0})
checkout seen plan_slug cycle = do
  set_pricing (λ p. record p { checking_out = checkout_key plan_slug cycle })
  try_finally (handle_checkout seen plan_slug cycle)
      (set_pricing (λ p. record p { checking_out = "" }))

-- `orderStatus`
unfoldable pub order_status : String → String × TagType
order_status status =
    if str_eq status "pending"
    then ("待支付", warning)
    else if str_eq status "paid"
    then ("已支付", TagType.success)
    else if str_eq status "failed"
    then ("支付失败", danger)
    else if str_eq status "cancelled"
    then ("已取消", TagType.info)
    else if str_eq status "refunded"
    then ("已退款", danger)
    else (status, TagType.info)
