-- ===== src/AdminWeb/Tests/Forms.antt =====
-- The theorems on what is saved, at concrete plans and rows.
use infinite_image_hosting.Prelude.{◌≡◌, refl, str_eq, true, false, none, some, [], ◌∷◌, map}
use infinite_image_hosting.UserWeb.Format.{gib, mib}
use infinite_image_hosting.AdminWeb.Types.{AdminPlan, visible}
use infinite_image_hosting.AdminWeb.Text.{TextOps}
use infinite_image_hosting.AdminWeb.Format.{Numbers}
use infinite_image_hosting.AdminWeb.Rows.{low}
use infinite_image_hosting.AdminWeb.Cells.{UsersState}
use infinite_image_hosting.AdminWeb.Cells.Start.{users_start, orders_start}
use infinite_image_hosting.AdminWeb.Csv.Reader.{read_csv, before}
use infinite_image_hosting.AdminWeb.Csv.Exports.{exports_read_back}
use infinite_image_hosting.AdminWeb.Views.Users.{users_csv, filtered_users, user_cells}
use infinite_image_hosting.AdminWeb.Views.Orders.{orders_csv, filtered_orders, order_cells}
use infinite_image_hosting.AdminWeb.Views.Plans.Form.{plan_form, build_plan_payload}
use infinite_image_hosting.AdminWeb.Views.Plans.Inputs.{whole_units, whole_count, whole_price}
use infinite_image_hosting.AdminWeb.Views.Plans.Rounding.{saved_plan_is_rounded}

abbrev ops : TextOps
ops = record { trim = λ t. t; to_lower = λ t. t; contains = λ t part. str_eq t part }

abbrev numbers : Numbers
numbers = record { scaled = λ t unit. none; is_number = λ t. false; cents = λ t. 0 }

-- 29.90 a month, with 200 MiB of storage.
abbrev small : AdminPlan
small = record {
  slug = "small";
  name = "Small";
  monthly_price_cent = 2990;
  yearly_price_cent = 29900;
  visibility = visible;
  purchasable = true;
  invite_only = false;
  unlimited = false;
  quota = record {
    storage_bytes = some 209715200;
    bandwidth_bytes = some 10737418240;
    image_requests = some 1000;
    api_calls = none;
    image_process_events = some 0;
    single_file_bytes = some 5242880;
  };
}

saved_plan_is_rounded_example : build_plan_payload ops numbers (plan_form (some small)) ≡ record {
  slug = "small";
  name = "Small";
  monthly_price_cent = whole_price 2990;
  yearly_price_cent = whole_price 29900;
  visibility = visible;
  purchasable = true;
  invite_only = false;
  unlimited = false;
  quota = record {
    storage_bytes = whole_units gib (some 209715200);
    bandwidth_bytes = whole_units gib (some 10737418240);
    image_requests = whole_count (some 1000);
    api_calls = whole_count none;
    image_process_events = whole_count (some 0);
    single_file_bytes = whole_units mib (some 5242880);
  };
}
saved_plan_is_rounded_example = saved_plan_is_rounded ops numbers small refl refl

abbrev quoted_user : UsersState
quoted_user = record users_start {
  users =
      record {
        id = "u1";
        username = "a \"b\", c";
        email = "a@example.com";
        plan = "pro";
        storage_used = "0 B";
        bandwidth_used = "0 B";
        image_requests = 0;
        api_calls = 0;
        process_events = 0;
        status = "active";
        created_at = "-";
        risk_level = low;
      }
      ∷ [];
}

exports_read_back_example :
    (read_csv before (users_csv ops quoted_user)
      ≡ ("id" ∷ "username" ∷ "email" ∷ "plan" ∷ "status" ∷ "storage_used" ∷ "created_at" ∷ [])
        ∷ map (user_cells ops) (filtered_users ops quoted_user))
    × (read_csv before (orders_csv ops orders_start)
        ≡ ("id" ∷ "user_id" ∷ "plan" ∷ "cycle" ∷ "amount" ∷ "status" ∷ "payment" ∷ "paid_at"
            ∷ "failed_at" ∷ "created_at" ∷ "note" ∷ [])
          ∷ map (order_cells ops) (filtered_orders ops orders_start))
exports_read_back_example = exports_read_back ops quoted_user orders_start
