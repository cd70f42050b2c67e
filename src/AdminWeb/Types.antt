-- ===== src/AdminWeb/Types.antt =====
-- The types of the administrators' App.tsx: what the server sends. An optional field `f?: T` or
-- `T | null` is an `Option`; a number of bytes, cents or events is a ℕ.
use infinite_image_hosting.Prelude.{ℕ, String, Bool, Option}

pub data ThemeTag : Type 0 where
  primary success warning danger info : ThemeTag

pub data RouteId : Type 0 where
  dashboard users orders plans hidden_plans invite_form invite_records moderation : RouteId
  security hotlink storage cdn api queue settings backup audit : RouteId

pub record AdminUsage : Type 0 where
  pub storage_bytes : Option ℕ
  pub bandwidth_bytes : Option ℕ
  pub image_requests : Option ℕ
  pub api_calls : Option ℕ
  pub image_process_events : Option ℕ

pub record AdminUser : Type 0 where
  pub id : String
  pub email : String
  pub nickname : String
  pub plan_slug : String
  pub status : String
  pub created_at : Option String
  pub usage : Option AdminUsage

pub data Visibility : Type 0 where
  visible hidden : Visibility

pub record Quota : Type 0 where
  pub storage_bytes : Option ℕ
  pub bandwidth_bytes : Option ℕ
  pub image_requests : Option ℕ
  pub api_calls : Option ℕ
  pub image_process_events : Option ℕ
  pub single_file_bytes : Option ℕ

pub record AdminPlan : Type 0 where
  pub slug : String
  pub name : String
  pub monthly_price_cent : ℕ
  pub yearly_price_cent : ℕ
  pub visibility : Visibility
  pub purchasable : Bool
  pub invite_only : Bool
  pub unlimited : Bool
  pub quota : Quota

pub record AdminOrder : Type 0 where
  pub id : String
  pub user_id : String
  pub plan_slug : String
  pub billing_cycle : String
  pub amount_cent : ℕ
  pub status : String
  pub ifpay_payment_id : String
  pub created_at : Option String
  pub paid_at : Option String
  pub failed_at : Option String
  pub operator_note : Option String

pub record AdminAccount : Type 0 where
  pub id : String
  pub email : String
  pub name : String
  pub role : String

pub record AdminAuthStatus : Type 0 where
  pub setup_required : Bool
  pub admin : Option AdminAccount

pub record AdminBootstrapStart : Type 0 where
  pub setup_token : String
  pub email : String
  pub qr_code_data_url : String

pub record AdminAuthResult : Type 0 where
  pub admin : AdminAccount
  pub token : String

pub record AdminOverview : Type 0 where
  pub users : ℕ
  pub images : ℕ
  pub storage_bytes : ℕ
  pub bandwidth_bytes : ℕ
  pub risk_events : ℕ
  pub orders : ℕ
  pub paid_orders : ℕ
  pub pending_orders : ℕ
  pub revenue_cent : ℕ
  pub active_subscriptions : ℕ
  pub frozen_images : ℕ
  pub deleted_images : ℕ

pub record RateLimits : Type 0 where
  pub default_per_minute : Option ℕ
  pub image_upload_per_minute : Option ℕ
  pub ifpay_checkout_per_minute : Option ℕ
  pub login_per_minute : Option ℕ

-- The fields that the views read of the system's configuration.
pub record AdminSystemConfig : Type 0 where
  pub rate_limits : Option RateLimits
  pub app_env : Option String
  pub public_base_url : Option String
  pub image_public_base_url : Option String
  pub storage_driver : Option String
  pub queue_driver : Option String
  pub redis_addr : Option String
  pub database_enabled : Bool
  pub smtp_configured : Bool
  pub ifpay_configured : Bool
  pub moderation_hash_count : Option ℕ

pub record IfpayIntegrationConfig : Type 0 where
  pub ifpay_base_url : String
  pub ifpay_partner_app_id : String
  pub ifpay_client_id : String
  pub ifpay_redirect_uri : String
  pub ifpay_client_secret_configured : Bool
  pub ifpay_private_key_configured : Bool
  pub ifpay_public_key_configured : Bool
  pub ifpay_webhook_public_key_configured : Bool
  pub ifpay_oauth_start : String
  pub ifpay_webhook : String
  pub ifpay_configured : Bool
  pub ifpay_payment_signing_configured : Bool
  pub ifpay_webhook_verification_configured : Bool

pub record Notice : Type 0 where
  pub type : ThemeTag
  pub text : String
