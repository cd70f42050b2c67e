-- ===== src/AdminWeb/Replies.antt =====
-- The types that the administrators' views write out where they call the server, and the texts that
-- their forms send. Of an untyped `Row` these are the fields that a view reads.
use infinite_image_hosting.Prelude.{ℕ, String, Bool, Option, List}

-- A number as `Number(text)` reads it: a whole number, or another, left as its text.
pub data Num : Type 0 where
  whole : ℕ → Num
  inexact : String → Num

pub data UserAction : Type 0 where
  ban unban : UserAction

pub data OrderAction : Type 0 where
  mark_paid cancel refund : OrderAction

pub record Invite : Type 0 where
  pub name : String
  pub code : String
  pub plan_slug : String
  pub grant_days : Num
  pub total_limit : Num
  pub per_user_limit : Num
  pub per_ip_limit : Num
  pub per_device_limit : ℕ
  pub new_users_only : Bool
  pub require_email_verified : Bool
  pub require_oauth_binding : Bool
  pub require_admin_approval : Bool
  pub notes : String

pub record InviteMade : Type 0 where
  pub code : String
  pub plan_slug : String
  pub grant_days : ℕ

pub record Redemption : Type 0 where
  pub id : String
  pub code : String
  pub user_id : String
  pub email : String
  pub ip : String
  pub device_id : String
  pub plan_slug : String
  pub created_at : Option String

pub record AdminImage : Type 0 where
  pub public_id : String
  pub user_id : String
  pub filename : String
  pub bytes : ℕ
  pub status : String
  pub perceptual_hash : String
  pub moderation_reason : Option String

-- A page of a list, with how many there are in all.
pub record Paged (A : Type 0) : Type 0 where
  pub items : List A
  pub total : ℕ

pub record SecurityEvent : Type 0 where
  pub created_at : Option String
  pub type : String
  pub message : String
  pub ip : String
  pub referer : String

pub record Validation : Type 0 where
  pub file_count : Option ℕ
  pub object_count : Option ℕ
  pub checksum_found : Bool

pub record StorageConfig : Type 0 where
  pub endpoint : Option String
  pub region : Option String
  pub bucket : Option String
  pub force_path_style : Option Bool

pub record HotlinkConfig : Type 0 where
  pub allowed_domains : List String
  pub blocked_domains : List String
  pub allow_empty_referer : Bool
  pub signing_enabled : Bool
  pub updated_at : Option String

pub record HotlinkPatch : Type 0 where
  pub allowed_domains : List String
  pub blocked_domains : List String
  pub allow_empty_referer : Bool

pub record Purged : Type 0 where
  pub purged_users : List String
  pub deleted_objects : ℕ

pub record Consumer : Type 0 where
  pub name : String
  pub pending : ℕ
  pub idle_ms : ℕ
  pub inactive_ms : ℕ

pub record QueueStatus : Type 0 where
  pub driver : Option String
  pub reachable : Bool
  pub length : Option ℕ
  pub pending : Option ℕ
  pub lag : Option ℕ
  pub dead_letter_length : Option ℕ
  pub stream : Option String
  pub dead_letter_stream : Option String
  pub group : Option String
  pub worker_name : Option String
  pub worker_retry_limit : Option String
  pub worker_claim_idle : Option String
  pub last_generated_id : Option String
  pub error : Option String
  pub consumers : Option (List Consumer)

pub record DeadLetter : Type 0 where
  pub id : String
  pub type : String
  pub original_id : String
  pub delivery_count : String
  pub reason : String
  pub failed_at : String

pub record CdnConfig : Type 0 where
  pub image_public_base_url : Option String
  pub origin_auth_endpoint : Option String
  pub image_route : Option String
  pub variant_route : Option String
  pub nginx_config : Option String
  pub cloudflare_rules_doc : Option String
  pub cache_strategy : Option String

pub record ApiConfig : Type 0 where
  pub public_base_url : Option String
  pub openapi : Option String
  pub metrics : Option String
  pub ifpay_oauth_start : Option String
  pub ifpay_webhook : Option String
  pub default_api_scopes : Option (List String)

-- The form of the IF-Pay integration, and what it sends.
pub record IfpayForm : Type 0 where
  pub ifpay_base_url : String
  pub ifpay_partner_app_id : String
  pub ifpay_client_id : String
  pub ifpay_redirect_uri : String
  pub ifpay_client_secret : String
  pub ifpay_private_key_pem : String
  pub ifpay_public_key_pem : String
  pub ifpay_webhook_public_key_pem : String

-- `metadata` is the object's JSON text.
pub record AuditLog : Type 0 where
  pub id : String
  pub actor : String
  pub action : String
  pub target : String
  pub metadata : Option String
  pub created_at : Option String
