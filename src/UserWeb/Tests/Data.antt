-- ===== src/UserWeb/Tests/Data.antt =====
-- A user, a page and two servers.
use infinite_image_hosting.Prelude.{◌-◌, ◌*◌, true, false, none, some, [], ◌∷◌}
use infinite_image_hosting.Async.Program.{Outcome, ok, fail, error}
use infinite_image_hosting.UserWeb.Types.{
  ApiUser, ApiImage, User, ImageItem, public, app, gallery, File,
}
use infinite_image_hosting.UserWeb.Mapping.{Env, map_user}
use infinite_image_hosting.UserWeb.Http.{
  Request, Reply, get_plans, get_me, list_images, ifpay_callback, ifpay_start, login, register,
  verify_email, resend_verification, forgot_password, reset_password, checkout_ifpay, upload_image,
  delete_image, patch_privacy, sign_image, list_orders, list_api_keys, create_api_key,
  revoke_api_key, export_backup, import_backup, patch_profile, request_destroy, write_clipboard,
  read_data_url, fetch_openapi, fetch_markdown,
}
use infinite_image_hosting.UserWeb.Views.Gallery.{TextOps}
use infinite_image_hosting.UserWeb.Page.{Page, Browser, boot}

abbrev pub env : Env
env = record {
  api_base = "/api/v1";
  today = "2025-01-01";
  floats = record {
    divide = λ a b. record { numerator = a; below = b - 1 };
    times = λ x n. record { numerator = x.numerator * n; below = x.below };
  };
}

abbrev pub ann : ApiUser
ann = record {
  id = "u1";
  email = "ann@example.com";
  nickname = "";
  avatar_url = none;
  plan_slug = "";
  email_verified = true;
}

abbrev pub cat : ApiImage
cat = record {
  public_id = "cat";
  filename = "cat.png";
  bytes = 2048;
  private = false;
  created_at = "2025-02-03T00:00:00Z";
}

abbrev pub answer : (r : Request) → Reply r
answer get_plans = []
answer (get_me _) = record { user = ann; usage = none }
answer (list_images _) = cat ∷ []
answer (ifpay_callback _ _) = record { user = ann; token = "t2"; ifpay_access_token = "p2" }
answer ifpay_start = "https://pay.example.com"
answer (login _ _) = record { user = ann; token = "t2" }
answer (register _ _ _) = record { user = ann; token = "t2"; dev_email_verification_code = none }
answer (verify_email _ _) = ann
answer (resend_verification _) = record { message = ""; dev_code = none }
answer (forgot_password _) = record { message = ""; dev_code = none }
answer (reset_password _ _ _) = ""
answer (checkout_ifpay _ _ _ _) = record {
  order_id = "o1";
  order_status = "pending";
  payment_status = "pending";
}
answer (upload_image _ _) = record { image = cat; raw_link = "/i/cat" }
answer (delete_image _ _) = tt
answer (patch_privacy _ _ _) = cat
answer (sign_image _ _) = "/i/cat?sig"
answer (list_orders _) = []
answer (list_api_keys _) = []
answer (create_api_key _) = "yx_secret"
answer (revoke_api_key _ _) = tt
answer (export_backup _) = tt
answer (import_backup _ _) = record { restored = 1; status = "done" }
answer (patch_profile _ _ _) = ann
answer (request_destroy _ _) = "T1"
answer (write_clipboard _) = tt
answer (read_data_url _) = "data:image/png;base64,"
answer fetch_openapi = ""
answer fetch_markdown = ""

-- A server that grants every request, and one that cannot be reached.
abbrev pub up : (r : Request) → Outcome (Reply r)
up r = ok (answer r)

abbrev pub down : (r : Request) → Outcome (Reply r)
down r = fail (error "offline")

abbrev pub idle : Page → Page
idle s = s

abbrev pub fresh : Browser
fresh = record {
  stored_token = none;
  stored_ifpay = none;
  pathname = "/";
  hash = "";
  assigned = none;
}

abbrev pub user : User
user = map_user ann

abbrev pub dog : ImageItem
dog = record {
  id = "dog";
  url = "/i/dog";
  name = "dog.png";
  size = "1.0 KB";
  date = "2025-02-03";
  privacy = public;
}

abbrev pub bird : ImageItem
bird = record dog { id = "bird" }

-- A signed-in user with two images.
abbrev pub signed : Page
signed = record (boot fresh) {
  token = "t1";
  user = some user;
  images = bird ∷ dog ∷ [];
  current_view = app gallery;
}

abbrev pub file : File
file = record { name = "cat.png"; mime = "image/png"; size = 2048 }

abbrev pub ops : TextOps
ops = record { trim = λ t. t; to_lower = λ t. t; contains = λ t p. true }
