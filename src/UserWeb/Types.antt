-- ===== src/UserWeb/Types.antt =====
-- The types of App.tsx: what the page keeps, and what the server sends.
-- An optional field `f?: T` or `T | null` is an `Option`; a number of bytes, cents or events is a ℕ.
use infinite_image_hosting.Prelude.{ℕ, String, Bool, Option}

pub data ToastType : Type 0 where
  success error info : ToastType

pub data TagType : Type 0 where
  primary success warning danger info : TagType

pub data DocsPanel : Type 0 where
  openapi markdown : DocsPanel

-- The views of a signed-in user, `AppView`, and all views.
pub data AppView : Type 0 where
  dashboard upload gallery pricing api security backup settings : AppView

pub data View : Type 0 where
  landing docs auth : View
  app : AppView → View

pub record User : Type 0 where
  pub id : String
  pub name : String
  pub email : String
  pub plan : String
  pub email_verified : Bool
  pub avatar_url : Option String

pub record ToastState : Type 0 where
  pub msg : String
  pub type : ToastType

pub record RegisterResult : Type 0 where
  pub user_id : String
  pub email : String
  pub token : String
  pub dev_code : Option String

pub record ForgotPasswordResult : Type 0 where
  pub email : String
  pub dev_code : Option String

pub record ApiUsage : Type 0 where
  pub storage_bytes : Option ℕ
  pub bandwidth_bytes : Option ℕ
  pub image_requests : Option ℕ
  pub api_calls : Option ℕ
  pub image_process_events : Option ℕ

pub data ImagePrivacy : Type 0 where
  public private : ImagePrivacy

pub record ImageItem : Type 0 where
  pub id : String
  pub url : String
  pub name : String
  pub size : String
  pub date : String
  pub privacy : ImagePrivacy

pub record PricingPlan : Type 0 where
  pub id : String
  pub name : String
  pub price_mo : ℕ
  pub price_yr : ℕ
  pub storage : String
  pub traffic : String
  pub requests : String
  pub api : String
  pub process : String
  pub color : String
  pub popular : Bool
  pub storage_bytes : Option ℕ
  pub bandwidth_bytes : Option ℕ
  pub image_requests : Option ℕ
  pub api_calls : Option ℕ
  pub image_process_events : Option ℕ

pub record ApiPlan : Type 0 where
  pub slug : String
  pub name : String
  pub monthly_price_cent : ℕ
  pub yearly_price_cent : ℕ
  pub quota : ApiUsage

pub record ApiUser : Type 0 where
  pub id : String
  pub email : String
  pub nickname : String
  pub avatar_url : Option String
  pub plan_slug : String
  pub email_verified : Bool

pub record ApiImage : Type 0 where
  pub public_id : String
  pub filename : String
  pub bytes : ℕ
  pub private : Bool
  pub created_at : String

pub record ApiOrder : Type 0 where
  pub id : String
  pub plan_slug : String
  pub billing_cycle : String
  pub amount_cent : ℕ
  pub status : String
  pub ifpay_payment_id : String
  pub created_at : String
  pub paid_at : Option String
  pub failed_at : Option String
  pub cancelled_at : Option String
  pub refunded_at : Option String

-- An API key as `/api-keys` lists it.
pub record ApiKey : Type 0 where
  pub id : String
  pub name : String
  pub prefix : String
  pub revoked : Bool
  pub created_at : String

pub data BillingCycle : Type 0 where
  monthly yearly : BillingCycle

-- A file that the user picks: its name, its MIME type and its size in bytes.
pub record File : Type 0 where
  pub name : String
  pub mime : String
  pub size : ℕ
