-- ===== src/UserWeb/Http/Wire.antt =====
-- What `apiFetch` and the other calls send: method, path, body and the Authorization header.
pub mod Credentials
use infinite_image_hosting.Prelude.{
  String, ◌<>◌, Bool, if◌then◌else◌, truthy, Option, none, some, List, [], ◌∷◌,
}
use infinite_image_hosting.UserWeb.Types.{File, BillingCycle, monthly, yearly}
use infinite_image_hosting.UserWeb.Http.{
  Request, get_plans, get_me, list_images, ifpay_callback, ifpay_start, login, register,
  verify_email, resend_verification, forgot_password, reset_password, checkout_ifpay, upload_image,
  delete_image, patch_privacy, sign_image, list_orders, list_api_keys, create_api_key,
  revoke_api_key, export_backup, import_backup, patch_profile, request_destroy, write_clipboard,
  read_data_url, fetch_openapi, fetch_markdown,
}

pub data Method : Type 0 where
  get post patch delete : Method

pub data Field : Type 0 where
  text : String → Field
  flag : Bool → Field
  texts : List String → Field

pub data Body : Type 0 where
  no_body : Body
  json : List (String × Field) → Body
  form_data : File → Body

pub record HttpRequest : Type 0 where
  pub method : Method
  pub path : String
  pub body : Body
  pub content_type : Option String
  pub authorization : Option String

abbrev pub cycle_name : BillingCycle → String
cycle_name monthly = "monthly"
cycle_name yearly = "yearly"

-- The headers that `apiFetch` sets: no JSON content type for a form, and the bearer if there is one.
abbrev content_type_of : Body → Option String
content_type_of (form_data _) = none
content_type_of _ = some "Content-Type: application/json"

abbrev bearer : String → Option String
bearer token = if truthy token then some ("Bearer " <> token) else none

abbrev api : Method → String → Body → String → Option HttpRequest
api method path body token = some (record {
  method = method;
  path = path;
  body = body;
  content_type = content_type_of body;
  authorization = bearer token;
})

-- The calls of App's effects.
abbrev plans_call : Option HttpRequest
plans_call = api get "/plans" no_body ""

abbrev get_me_call : (token : String) → Option HttpRequest
get_me_call token = api get "/auth/me" no_body token

abbrev ifpay_callback_call :
    (encode : String → String) → (oauth_code oauth_state : String) → Option HttpRequest
ifpay_callback_call encode oauth_code oauth_state =
    api get
      ("/oauth/ifpay/callback?code=" <> (encode oauth_code <> ("&state=" <> encode oauth_state)))
      no_body ""

-- The calls of the views.
abbrev document : (path : String) → Option HttpRequest
document path = some (record {
  method = get;
  path = path;
  body = no_body;
  content_type = none;
  authorization = none;
})

abbrev list_orders_call : (token : String) → Option HttpRequest
list_orders_call token = api get "/orders" no_body token

abbrev list_api_keys_call : (token : String) → Option HttpRequest
list_api_keys_call token = api get "/api-keys" no_body token

abbrev create_api_key_call : (token : String) → Option HttpRequest
create_api_key_call token =
    api post "/api-keys"
      (json (
        ("name", text "Default Production Key")
        ∷ ("scopes", texts ("images:read" ∷ "images:write" ∷ "albums:read" ∷ "albums:write" ∷ []))
        ∷ []))
      token

abbrev revoke_api_key_call : (key_id token : String) → Option HttpRequest
revoke_api_key_call key_id token = api delete ("/api-keys/" <> key_id) no_body token

abbrev export_backup_call : (token : String) → Option HttpRequest
export_backup_call token = some (record {
  method = get;
  path = "/backups/export";
  body = no_body;
  content_type = none;
  authorization = some ("Bearer " <> token);
})

abbrev import_backup_call : File → (token : String) → Option HttpRequest
import_backup_call file token = api post "/backups/import" (form_data file) token

abbrev patch_profile_call : (nickname avatar_url token : String) → Option HttpRequest
patch_profile_call nickname avatar_url token =
    api patch "/settings/profile"
      (json (("nickname", text nickname) ∷ ("avatar_url", text avatar_url) ∷ [])) token

abbrev request_destroy_call : (reason token : String) → Option HttpRequest
request_destroy_call reason token =
    api post "/settings/account-destroy-request" (json (("reason", text reason) ∷ [])) token

-- `encode` is `encodeURIComponent`. The clipboard and the file reader are no HTTP calls; the two
-- documents and the backup are read by a plain `fetch`.
module _ (encode : String → String) where
  unfoldable pub wire : Request → Option HttpRequest
  wire get_plans = plans_call
  wire (get_me token) = get_me_call token
  wire (list_images token) = api get "/images" no_body token
  wire (ifpay_callback oauth_code oauth_state) = ifpay_callback_call encode oauth_code oauth_state
  wire ifpay_start = api get "/oauth/ifpay/start" no_body ""
  wire (login email password) =
      api post "/auth/login" (json (("email", text email) ∷ ("password", text password) ∷ [])) ""
  wire (register email password nickname) =
      api post "/auth/register"
        (json
          (("email", text email) ∷ ("password", text password) ∷ ("nickname", text nickname) ∷ []))
        ""
  wire (verify_email user_id c) =
      api post "/auth/verify-email" (json (("user_id", text user_id) ∷ ("code", text c) ∷ [])) ""
  wire (resend_verification user_id) =
      api post "/auth/resend-verification" (json (("user_id", text user_id) ∷ [])) ""
  wire (forgot_password email) =
      api post "/auth/forgot-password" (json (("email", text email) ∷ [])) ""
  wire (reset_password email c new_password) =
      api post "/auth/reset-password"
        (json (("email", text email) ∷ ("code", text c) ∷ ("new_password", text new_password) ∷ []))
        ""
  wire (checkout_ifpay plan_slug cycle access_token token) =
      api post "/checkout/ifpay"
        (json (
          ("plan_slug", text plan_slug)
          ∷ ("billing_cycle", text (cycle_name cycle))
          ∷ ("sub_method", text "ifpay_balance")
          ∷ ("access_token", text access_token)
          ∷ []))
        token
  wire (upload_image file token) = api post "/images" (form_data file) token
  wire (delete_image public_id token) = api delete ("/images/" <> encode public_id) no_body token
  wire (patch_privacy public_id is_private token) =
      api patch ("/images/" <> (encode public_id <> "/privacy"))
        (json (("private", flag is_private) ∷ [])) token
  wire (sign_image public_id token) =
      api get ("/images/" <> (encode public_id <> "/sign")) no_body token
  wire (list_orders token) = list_orders_call token
  wire (list_api_keys token) = list_api_keys_call token
  wire (create_api_key token) = create_api_key_call token
  wire (revoke_api_key key_id token) = revoke_api_key_call key_id token
  wire (export_backup token) = export_backup_call token
  wire (import_backup file token) = import_backup_call file token
  wire (patch_profile nickname avatar_url token) = patch_profile_call nickname avatar_url token
  wire (request_destroy reason token) = request_destroy_call reason token
  wire fetch_openapi = document "/docs/openapi.yaml"
  wire fetch_markdown = document "/docs/api.md"
  wire (write_clipboard _) = none
  wire (read_data_url _) = none
