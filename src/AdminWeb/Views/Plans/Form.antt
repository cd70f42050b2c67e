-- ===== src/AdminWeb/Views/Plans/Form.antt =====
-- The form of a plan: openPlanDialog fills it in, buildPlanPayload reads it.
use infinite_image_hosting.Prelude.{
  ℕ, ◌==◌, String, Bool, true, false, not, if◌then◌else◌, Option, none, some, get_or,
}
use infinite_image_hosting.UserWeb.Format.{show, round_div}
use infinite_image_hosting.AdminWeb.Types.{AdminPlan, Visibility, visible, hidden}
use infinite_image_hosting.AdminWeb.Text.{TextOps}
use infinite_image_hosting.AdminWeb.Format.{
  Numbers, bytes_to_gb_input, bytes_to_mb_input, gb_input_to_bytes, mb_input_to_bytes,
  number_input_or_null, price_cents,
}
use infinite_image_hosting.AdminWeb.Cells.{PlanForm}
use infinite_image_hosting.AdminWeb.Cells.Start.{empty_plan_form}

-- `count ? String(count) : ""`
unfoldable pub count_input : Option ℕ → String
unfolding show
count_input value = let n = get_or value 0 in if n == 0 then "" else show n

abbrev pub is_visible : Visibility → Bool
is_visible visible = true
is_visible hidden = false

-- What `openPlanDialog` puts into the form.
unfoldable pub plan_form : Option AdminPlan → PlanForm
unfolding show round_div bytes_to_gb_input bytes_to_mb_input count_input
plan_form none = empty_plan_form
plan_form (some plan) = record {
  slug = plan.slug;
  name = plan.name;
  monthly = show (round_div plan.monthly_price_cent 100);
  yearly = show (round_div plan.yearly_price_cent 100);
  storage_gb = bytes_to_gb_input plan.quota.storage_bytes;
  traffic_gb = bytes_to_gb_input plan.quota.bandwidth_bytes;
  requests = count_input plan.quota.image_requests;
  api_calls = count_input plan.quota.api_calls;
  process_events = count_input plan.quota.image_process_events;
  single_file_mb = bytes_to_mb_input plan.quota.single_file_bytes;
  visible = is_visible plan.visibility;
  purchasable = plan.purchasable;
}

-- `buildPlanPayload()`; no call of it gives an `override`.
unfoldable pub build_plan_payload : TextOps → Numbers → PlanForm → AdminPlan
unfolding gb_input_to_bytes mb_input_to_bytes number_input_or_null price_cents
build_plan_payload ops numbers form = record {
  slug = ops.to_lower (ops.trim form.slug);
  name = ops.trim form.name;
  monthly_price_cent = price_cents numbers form.monthly;
  yearly_price_cent = price_cents numbers form.yearly;
  visibility = if form.visible then visible else hidden;
  purchasable = if form.visible then form.purchasable else false;
  invite_only = not form.visible;
  unlimited = false;
  quota = record {
    storage_bytes = gb_input_to_bytes numbers form.storage_gb;
    bandwidth_bytes = gb_input_to_bytes numbers form.traffic_gb;
    image_requests = number_input_or_null numbers form.requests;
    api_calls = number_input_or_null numbers form.api_calls;
    image_process_events = number_input_or_null numbers form.process_events;
    single_file_bytes = mb_input_to_bytes numbers form.single_file_mb;
  };
}
