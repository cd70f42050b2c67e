-- ===== src/UserWeb/Http.antt =====
-- The calls that App.tsx makes of the server, what goes over the wire, and `apiFetch`.
-- A reply has the type that the caller of `apiFetch<T>` names: the code does not check it either.
pub mod Wire
pub mod Envelope
use infinite_image_hosting.Prelude.{ℕ, String, Bool, Option, List}
use infinite_image_hosting.UserWeb.Types.{
  ApiUser, ApiUsage, ApiImage, ApiPlan, ApiOrder, ApiKey, BillingCycle, File,
}

-- One constructor for each call. A `token` is the session that the call is made with.
pub data Request : Type 0 where
  get_plans : Request
  get_me : (token : String) → Request
  list_images : (token : String) → Request
  ifpay_callback : (oauth_code oauth_state : String) → Request
  ifpay_start : Request
  login : (email password : String) → Request
  register : (email password nickname : String) → Request
  verify_email : (user_id verification_code : String) → Request
  resend_verification : (user_id : String) → Request
  forgot_password : (email : String) → Request
  reset_password : (email verification_code new_password : String) → Request
  checkout_ifpay : (plan_slug : String) → BillingCycle → (access_token token : String) → Request
  upload_image : File → (token : String) → Request
  delete_image : (public_id token : String) → Request
  patch_privacy : (public_id : String) → (is_private : Bool) → (token : String) → Request
  sign_image : (public_id token : String) → Request
  list_orders : (token : String) → Request
  list_api_keys : (token : String) → Request
  create_api_key : (token : String) → Request
  revoke_api_key : (key_id token : String) → Request
  export_backup : (token : String) → Request
  import_backup : File → (token : String) → Request
  patch_profile : (nickname avatar_url token : String) → Request
  request_destroy : (reason token : String) → Request
  write_clipboard : (text : String) → Request
  read_data_url : File → Request
  fetch_openapi : Request
  fetch_markdown : Request

pub record Session : Type 0 where
  pub user : ApiUser
  pub token : String

pub record IfpaySession : Type 0 where
  pub user : ApiUser
  pub token : String
  pub ifpay_access_token : String

pub record Me : Type 0 where
  pub user : ApiUser
  pub usage : Option ApiUsage

pub record Registered : Type 0 where
  pub user : ApiUser
  pub token : String
  pub dev_email_verification_code : Option String

-- The reply to a request for a code by mail, with the code itself in development mode.
pub record Mailed : Type 0 where
  pub message : String
  pub dev_code : Option String

pub record Checkout : Type 0 where
  pub order_id : String
  pub order_status : String
  pub payment_status : String

pub record Uploaded : Type 0 where
  pub image : ApiImage
  pub raw_link : String

pub record Restored : Type 0 where
  pub restored : ℕ
  pub status : String

abbrev pub Reply : Request → Type 0
Reply get_plans = List ApiPlan
Reply (get_me _) = Me
Reply (list_images _) = List ApiImage
Reply (ifpay_callback _ _) = IfpaySession
Reply ifpay_start = String
Reply (login _ _) = Session
Reply (register _ _ _) = Registered
Reply (verify_email _ _) = ApiUser
Reply (resend_verification _) = Mailed
Reply (forgot_password _) = Mailed
Reply (reset_password _ _ _) = String
Reply (checkout_ifpay _ _ _ _) = Checkout
Reply (upload_image _ _) = Uploaded
Reply (delete_image _ _) = Unit
Reply (patch_privacy _ _ _) = ApiImage
Reply (sign_image _ _) = String
Reply (list_orders _) = List ApiOrder
Reply (list_api_keys _) = List ApiKey
Reply (create_api_key _) = String
Reply (revoke_api_key _ _) = Unit
Reply (export_backup _) = Unit
Reply (import_backup _ _) = Restored
Reply (patch_profile _ _ _) = ApiUser
Reply (request_destroy _ _) = String
Reply (write_clipboard _) = Unit
Reply (read_data_url _) = String
Reply fetch_openapi = String
Reply fetch_markdown = String
