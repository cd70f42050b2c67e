-- ===== src/UserWeb/Render/Controls/Pricing.antt =====
-- The controls of the plans and of the API keys.
use infinite_image_hosting.Prelude.{String, List, [], ◌∷◌}
use infinite_image_hosting.UserWeb.Types.{User, PricingPlan, ApiOrder, ApiKey}
use infinite_image_hosting.UserWeb.Mapping.{Env}
use infinite_image_hosting.UserWeb.Page.{Page}
use infinite_image_hosting.UserWeb.Render.Controls.{Offers, offers_rules}
use infinite_image_hosting.UserWeb.Requests.Starts.{starts}
use infinite_image_hosting.UserWeb.Render.Pricing.{
  plan_card, plan_cards, order_row, order_panel, pricing_view,
}
use infinite_image_hosting.UserWeb.Render.ApiKeys.{key_row, key_rows, api_view}

module _ (env : Env) (trim : String → String) (seen : Page) (u : User) where
  plan_card-Offers : (plan : PricingPlan) → Offers u (plan_card seen u.plan plan)
  unfolding plan_card
  plan_card-Offers plan = search (offers_rules, starts) depth 40

  plan_cards-Offers : (plans : List PricingPlan) → Offers u (plan_cards seen u.plan plans)
  unfolding plan_cards
  plan_cards-Offers [] = search (offers_rules) depth 10
  plan_cards-Offers (p ∷ plans) = search (offers_rules, plan_card-Offers) depth 10

  order_row-Offers : (order : ApiOrder) → Offers u (order_row order)
  unfolding order_row
  order_row-Offers order = search (offers_rules) depth 10

  order_panel-Offers : Offers u (order_panel seen.token seen.pricing)
  unfolding order_panel
  order_panel-Offers = search (offers_rules, order_row-Offers, starts) depth 20

  pub pricing_view-Offers : Offers u (pricing_view seen u)
  unfolding pricing_view
  pricing_view-Offers =
      search (offers_rules, plan_cards-Offers, order_panel-Offers, starts) depth 20

  key_row-Offers : (key : ApiKey) → Offers u (key_row seen.token key)
  unfolding key_row
  key_row-Offers key = search (offers_rules, starts) depth 10

  key_rows-Offers : (keys : List ApiKey) → Offers u (key_rows seen.token keys)
  unfolding key_rows
  key_rows-Offers [] = search (offers_rules) depth 10
  key_rows-Offers (k ∷ keys) = search (offers_rules, key_row-Offers) depth 10

  pub api_view-Offers : Offers u (api_view seen u)
  unfolding api_view
  api_view-Offers = search (offers_rules, key_rows-Offers, starts) depth 20
