-- ===== src/AdminWeb/Views/Plans/Rounding.antt =====
-- What a plan becomes when its form is opened and saved.
use infinite_image_hosting.Prelude.{ℕ, ◌≡◌, refl, false, not, if◌then◌else◌, Option, some}
use infinite_image_hosting.UserWeb.Format.{gib, mib, round_div}
use infinite_image_hosting.AdminWeb.Types.{AdminPlan, Visibility, visible, hidden}
use infinite_image_hosting.AdminWeb.Text.{TextOps}
use infinite_image_hosting.AdminWeb.Format.{
  Numbers, bytes_to_gb_input, bytes_to_mb_input, gb_input_to_bytes, mb_input_to_bytes,
}
use infinite_image_hosting.AdminWeb.Views.Plans.Form.{plan_form, build_plan_payload, is_visible}
use infinite_image_hosting.AdminWeb.Views.Plans.Inputs.{
  whole_units, whole_count, whole_price, from_input-to_input, from_input-count_input,
  price_cents-show,
}

module _ (ops : TextOps) (numbers : Numbers) where
  gb_input :
      (value : Option ℕ)
      → gb_input_to_bytes numbers (bytes_to_gb_input value) ≡ whole_units gib value
  unfolding gb_input_to_bytes bytes_to_gb_input
  gb_input value = from_input-to_input numbers gib value rounds
    where
      rounds : round_div 0 gib ≡ 0
      rounds = unfold round_div in refl

  mb_input :
      (value : Option ℕ)
      → mb_input_to_bytes numbers (bytes_to_mb_input value) ≡ whole_units mib value
  unfolding mb_input_to_bytes bytes_to_mb_input
  mb_input value = from_input-to_input numbers mib value (unfold round_div in refl)

  visible-form : (v : Visibility) → (if is_visible v then visible else hidden) ≡ v
  visible-form visible = refl
  visible-form hidden = refl

  -- The plan that the form sends for a plan that it was opened with, whose slug is trimmed and in lower
  -- case and whose name is trimmed: the prices are rounded to whole yuan, the sizes to whole GB and MB, a
  -- size or a count that is then 0 has no limit, a hidden plan is not for sale, and a plan without limits has some.
  pub saved_plan_is_rounded :
      (plan : AdminPlan)
      → ops.to_lower (ops.trim plan.slug) ≡ plan.slug
      → ops.trim plan.name ≡ plan.name
      → build_plan_payload ops numbers (plan_form (some plan)) ≡ record {
        slug = plan.slug;
        name = plan.name;
        monthly_price_cent = whole_price plan.monthly_price_cent;
        yearly_price_cent = whole_price plan.yearly_price_cent;
        visibility = plan.visibility;
        purchasable = if is_visible plan.visibility then plan.purchasable else false;
        invite_only = not (is_visible plan.visibility);
        unlimited = false;
        quota = record {
          storage_bytes = whole_units gib plan.quota.storage_bytes;
          bandwidth_bytes = whole_units gib plan.quota.bandwidth_bytes;
          image_requests = whole_count plan.quota.image_requests;
          api_calls = whole_count plan.quota.api_calls;
          image_process_events = whole_count plan.quota.image_process_events;
          single_file_bytes = whole_units mib plan.quota.single_file_bytes;
        };
      }
  unfolding build_plan_payload plan_form
  saved_plan_is_rounded plan slug name =
      rw
        (
          slug,
          name,
          visible-form plan.visibility,
          price_cents-show numbers plan.monthly_price_cent,
          price_cents-show numbers plan.yearly_price_cent,
          gb_input plan.quota.storage_bytes,
          gb_input plan.quota.bandwidth_bytes,
          from_input-count_input numbers plan.quota.image_requests,
          from_input-count_input numbers plan.quota.api_calls,
          from_input-count_input numbers plan.quota.image_process_events,
          mb_input plan.quota.single_file_bytes,
        )
        refl
