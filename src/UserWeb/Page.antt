-- ===== src/UserWeb/Page.antt =====
-- The state of the page: the `useState` cells of App and of the views below it, and what they keep
-- in the browser. The cells of a view are those of its current mount.
use infinite_image_hosting.Prelude.{ℕ, String, Bool, false, Option, none, some, List, [], get_or}
use infinite_image_hosting.Async.Program.{Prog, Async, modify, message_or, try_catch}
use infinite_image_hosting.UserWeb.Types.{
  View, landing, User, ToastState, ToastType, error as error_toast, ApiUsage, ImageItem,
  ImagePrivacy, PricingPlan, ApiOrder, ApiKey, RegisterResult, ForgotPasswordResult, DocsPanel,
  openapi,
}
use infinite_image_hosting.UserWeb.Http.{Request, Reply}

-- `localStorage` at the two keys, the location, and `window.location.assign`.
pub record Browser : Type 0 where
  pub stored_token : Option String
  pub stored_ifpay : Option String
  pub pathname : String
  pub hash : String
  pub assigned : Option String

pub data AuthMode : Type 0 where
  login register verify forgot reset : AuthMode

pub record Notice : Type 0 where
  pub type : ToastType
  pub text : String

pub record AuthState : Type 0 where
  pub mode : AuthMode
  pub pending : Option RegisterResult
  pub reset_pending : Option ForgotPasswordResult
  pub notice : Option Notice
  pub submitting : Bool

pub record UploadState : Type 0 where
  pub is_dragging : Bool
  pub uploading : Bool
  pub resending : Bool
  pub progress : ℕ

-- `"all" | ImagePrivacy`
pub data PrivacyFilter : Type 0 where
  all : PrivacyFilter
  only : ImagePrivacy → PrivacyFilter

pub record GalleryState : Type 0 where
  pub selected : Option ImageItem
  pub query : String
  pub privacy_filter : PrivacyFilter

pub record PricingState : Type 0 where
  pub orders : List ApiOrder
  pub orders_loading : Bool
  pub checking_out : String
  -- the live run of the effect that loads the orders
  pub orders_run : ℕ

pub record ApiState : Type 0 where
  pub keys : List ApiKey
  pub latest_secret : String
  pub resending : Bool

pub record SettingsState : Type 0 where
  pub alias : String
  pub avatar_url : String
  pub destroy_reason : String
  pub resending : Bool

pub record DocsState : Type 0 where
  pub active_panel : DocsPanel
  pub openapi_text : String
  pub markdown_text : String
  pub docs_error : String
  -- the live run of the effect that loads the documents
  pub docs_run : ℕ

pub record Page : Type 0 where
  pub current_view : View
  pub user : Option User
  pub token : String
  pub ifpay_token : String
  pub toast : Option ToastState
  pub images : List ImageItem
  pub plans : List PricingPlan
  pub usage : ApiUsage
  pub plans_error : String
  pub orders_refresh_key : ℕ
  -- the live run of the effect on `token`: an older run has its `cancelled` set
  pub session_run : ℕ
  pub browser : Browser
  pub auth : AuthState
  pub upload : UploadState
  pub gallery : GalleryState
  pub pricing : PricingState
  pub api : ApiState
  pub settings : SettingsState
  pub docs : DocsState

abbrev pub Handler : Type 0 → Type 0
Handler = Async Page Request Reply

abbrev pub Running : Type 0
Running = Prog Page Request Reply

abbrev pub no_usage : ApiUsage
no_usage = record {
  storage_bytes = none;
  bandwidth_bytes = none;
  image_requests = none;
  api_calls = none;
  image_process_events = none;
}

-- The cells that a view starts with when it is mounted.
abbrev pub auth_start : AuthState
auth_start = record {
  mode = login;
  pending = none;
  reset_pending = none;
  notice = none;
  submitting = false;
}

abbrev pub upload_start : UploadState
upload_start = record { is_dragging = false; uploading = false; resending = false; progress = 0 }

abbrev pub gallery_start : GalleryState
gallery_start = record { selected = none; query = ""; privacy_filter = all }

abbrev pub pricing_start : PricingState
pricing_start = record { orders = []; orders_loading = false; checking_out = ""; orders_run = 0 }

abbrev pub api_start : ApiState
api_start = record { keys = []; latest_secret = ""; resending = false }

abbrev pub settings_start : User → SettingsState
settings_start user = record {
  alias = user.name;
  avatar_url = get_or user.avatar_url "";
  destroy_reason = "";
  resending = false;
}

abbrev pub docs_start : DocsState
docs_start = record {
  active_panel = openapi;
  openapi_text = "";
  markdown_text = "";
  docs_error = "";
  docs_run = 0;
}

-- The first render of `App` over what the browser has stored.
unfoldable pub boot : Browser → Page
boot b = record {
  current_view = landing;
  user = none;
  token = get_or b.stored_token "";
  ifpay_token = get_or b.stored_ifpay "";
  toast = none;
  images = [];
  plans = [];
  usage = no_usage;
  plans_error = "";
  orders_refresh_key = 0;
  session_run = 0;
  browser = b;
  auth = auth_start;
  upload = upload_start;
  gallery = gallery_start;
  pricing = pricing_start;
  api = api_start;
  settings = record { alias = ""; avatar_url = ""; destroy_reason = ""; resending = false };
  docs = docs_start;
}

-- The setters that several handlers share.
abbrev pub put_toast : String → ToastType → Page → Page
put_toast msg type s = record s { toast = some (record { msg = msg; type = type }) }

abbrev pub put_view : View → Page → Page
put_view v s = record s { current_view = v }

abbrev pub put_user : User → Page → Page
put_user u s = record s { user = some u }

-- `localStorage.setItem(TOKEN_KEY, token)`
abbrev pub store_token : String → Page → Page
store_token t s = record s { browser = record s.browser { stored_token = some t } }

abbrev pub put_token : String → Page → Page
put_token t s = record s { token = t }

unfoldable pub show_toast : String → ToastType → Handler (Unit {0})
show_toast msg type k e = modify (put_toast msg type) (k tt)

-- `error instanceof Error ? error.message : fallback`, shown as an error
abbrev pub show_error : String → Handler (Unit {0}) → Handler (Unit {0})
show_error fallback m = try_catch m (λ x. show_toast (message_or fallback x) error_toast)
