-- ===== src/UserWeb/Session/Views/Pricing.antt =====
-- The handlers of PricingView and the tokens of the session.
use infinite_image_hosting.Prelude.{String}
use infinite_image_hosting.Async.Rules.{Holds}
use infinite_image_hosting.UserWeb.Rules.{Holds-call}
use infinite_image_hosting.UserWeb.Types.{BillingCycle}
use infinite_image_hosting.UserWeb.Http
use infinite_image_hosting.UserWeb.Page.{Page, PricingState}
use infinite_image_hosting.UserWeb.Views.Pricing
use infinite_image_hosting.UserWeb.Session.InSync.{InSync, sync_steps, Holds-handle_checkout}

pub Holds-set_pricing : (f : PricingState → PricingState) → Holds InSync (Pricing.set_pricing f)
unfolding Pricing.set_pricing
Holds-set_pricing f = search sync_steps

pub Holds-refresh_orders : (token : String) → Holds InSync (Pricing.refresh_orders token)
unfolding Pricing.refresh_orders
Holds-refresh_orders token =
    search (sync_steps, Holds-set_pricing, Holds-call (Http.list_orders token)) depth 14

pub Holds-orders_effect : (seen : Page) → Holds InSync (Pricing.orders_effect seen)
unfolding Pricing.orders_effect
Holds-orders_effect seen =
    search (sync_steps, Holds-set_pricing, Holds-call (Http.list_orders seen.token)) depth 14

pub Holds-checkout :
    (seen : Page) (plan_slug : String) (cycle : BillingCycle)
    → Holds InSync (Pricing.checkout seen plan_slug cycle)
unfolding Pricing.checkout
Holds-checkout seen plan_slug cycle =
    search (sync_steps, Holds-set_pricing, Holds-handle_checkout) depth 14
