-- ===== src/UserWeb/Views/Pricing/Orders.antt =====
-- The orders of PricingView and the checkout.
use infinite_image_hosting.Prelude.{
  ◌&&◌, ◌+◌, String, ◌≡◌, true, false, not, ◌==◌, truthy, some, if◌then◌else◌, arith,
}
use infinite_image_hosting.Async.Program.{Outcome, ok, fail, run}
use infinite_image_hosting.Async.Exec.{exec}
use infinite_image_hosting.UserWeb.Types.{auth, BillingCycle}
use infinite_image_hosting.UserWeb.Http
use infinite_image_hosting.UserWeb.Http.{Request, Reply, Uploaded}
use infinite_image_hosting.UserWeb.Page.{Page, show_toast}
use infinite_image_hosting.UserWeb.App.Account.{handle_checkout, start_ifpay_oauth}
use infinite_image_hosting.UserWeb.Views.Pricing.{
  refresh_orders, orders_effect, checkout, set_pricing,
}

-- The page as a run of the orders effect leaves it when it starts to wait.
abbrev pub begun : Page → Page → Page
begun seen s = record s {
  pricing = record s.pricing { orders_run = seen.pricing.orders_run + 1; orders_loading = true };
}

module _ (server : (r : Request) → Outcome (Reply r)) (meanwhile : Page → Page) where
  -- Whatever the server answers and whatever happens meanwhile, from a page that is not loading orders,
  -- a checkout ends with no checkout marked as running, and a reload of the orders, with or without a
  -- token, ends with its button enabled again.
  pub pricing_ends_idle :
      (seen s : Page) (token plan_slug : String) (cycle : BillingCycle)
      → s.pricing.orders_loading ≡ false
      → ((exec server meanwhile (run (checkout seen plan_slug cycle)) s).pricing.checking_out ≡ "")
        × ((exec server meanwhile (run (refresh_orders token)) s).pricing.orders_loading ≡ false)
  unfolding refresh_orders checkout set_pricing handle_checkout start_ifpay_oauth show_toast
  pricing_ends_idle seen s token plan_slug cycle idle = ground arith

  -- Whatever the answer to a run of the orders effect, started with a token, is: if the run is no
  -- longer the live one when it comes, it changes nothing.
  pub stale_orders_change_nothing :
      (seen s : Page)
      → truthy seen.token ≡ true
      → ((meanwhile (begun seen s)).pricing.orders_run == seen.pricing.orders_run + 1) ≡ false
      → exec server meanwhile (run (orders_effect seen)) s ≡ meanwhile (begun seen s)
  unfolding orders_effect set_pricing
  stale_orders_change_nothing seen s live newer = ground arith

  -- What a checkout does in each state of the session, if nothing else happens meanwhile: without a
  -- session token it asks for sign-in, with one but without an IF-Pay token it sends the browser to
  -- the authorization that the server names, and with both it counts one more order to load if the
  -- server makes the order. Each of the three effects happens in no other case.
  pub checkout_cases :
      (s : Page) (plan_slug : String) (cycle : BillingCycle)
      → let after = exec server (λ t. t) (run (checkout s plan_slug cycle)) s in
        (after.current_view ≡ (if truthy s.token then s.current_view else auth))
        × (after.browser.assigned ≡ (
            if truthy s.token && not (truthy s.ifpay_token)
            then elim (server Http.ifpay_start) [ ok url ↦ some url | fail x ↦ s.browser.assigned ]
            else s.browser.assigned))
        × (after.orders_refresh_key ≡ (
            if truthy s.token && truthy s.ifpay_token
            then elim (server (Http.checkout_ifpay plan_slug cycle s.ifpay_token s.token)) [
              | ok made ↦ s.orders_refresh_key + 1
              | fail x ↦ s.orders_refresh_key
            ]
            else s.orders_refresh_key))
  unfolding checkout set_pricing handle_checkout start_ifpay_oauth show_toast
  checkout_cases s plan_slug cycle = (ground arith, ground arith, ground arith)
