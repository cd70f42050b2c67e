-- ===== src/AdminWeb/Cells.antt =====
-- The `useState` cells of the administrators' views.
pub mod Start
use infinite_image_hosting.Prelude.{ℕ, String, Bool, true, false, Option, none, List, []}
use infinite_image_hosting.AdminWeb.Types.{
  AdminPlan, AdminOverview, AdminSystemConfig, IfpayIntegrationConfig, Notice,
}
use infinite_image_hosting.AdminWeb.Replies.{
  OrderAction, mark_paid, Validation, StorageConfig, HotlinkConfig, QueueStatus, DeadLetter,
  CdnConfig, ApiConfig, IfpayForm,
}
use infinite_image_hosting.AdminWeb.Rows.{UserRow, OrderRow, ImageRow, EventRow, RecordRow, LogRow}

-- DashboardView, StorageConfigView and CDNConfigView: what was read, and the notice.
pub record Fetched (A : Type 0) : Type 0 where
  pub config : Option A
  pub notice : String

pub record UsersState : Type 0 where
  pub users : List UserRow
  pub keyword : String
  pub notice : Option Notice
  pub expiring_user : Option UserRow
  pub selected_user : Option UserRow
  pub expire_reason : String
  pub user_action_id : String
  pub expiring : Bool

pub record PlanForm : Type 0 where
  pub slug : String
  pub name : String
  pub monthly : String
  pub yearly : String
  pub storage_gb : String
  pub traffic_gb : String
  pub requests : String
  pub api_calls : String
  pub process_events : String
  pub single_file_mb : String
  pub visible : Bool
  pub purchasable : Bool

pub record PlansState : Type 0 where
  pub plans : List AdminPlan
  pub form : PlanForm
  pub dialog_open : Bool
  pub notice : Option Notice
  pub saving_plan : Bool
  pub unpublishing_slug : String
  pub show_hidden_plans : Bool

pub record HiddenState : Type 0 where
  pub show_confirm : Bool
  pub target : String
  pub grant_days : String
  pub reason : String
  pub notice : Option Notice
  pub submitting : Bool

pub record InviteState : Type 0 where
  pub name : String
  pub plan_slug : String
  pub code : String
  pub grant_days : String
  pub total_limit : String
  pub per_user_limit : String
  pub per_ip_limit : String
  pub strict_device : Bool
  pub new_users_only : Bool
  pub require_email_verified : Bool
  pub require_oauth_binding : Bool
  pub require_admin_approval : Bool
  pub notice : Option Notice
  pub submitting : Bool
  pub plans : List AdminPlan

pub record ModerationState : Type 0 where
  pub images : List ImageRow
  pub keyword : String
  pub status_filter : String
  pub total : ℕ
  pub notice : Option Notice
  pub processing_id : String

pub record SecurityState : Type 0 where
  pub events : List EventRow
  pub system_config : Option AdminSystemConfig
  pub notice : String

pub record BackupState : Type 0 where
  pub notice : Option Notice
  pub validation : Option Validation
  pub file_name : String
  pub exporting : Bool
  pub validating : Bool

pub record OrdersState : Type 0 where
  pub orders : List OrderRow
  pub notice : Option Notice
  pub action_target : Option OrderRow
  pub action_kind : OrderAction
  pub action_reason : String
  pub submitting_action : Bool
  pub keyword : String
  pub status_filter : String

pub record RecordsState : Type 0 where
  pub records : List RecordRow
  pub notice : String

pub record HotlinkState : Type 0 where
  pub config : Option HotlinkConfig
  pub allowed : String
  pub blocked : String
  pub allow_empty : Bool
  pub notice : Option Notice
  pub saving : Bool

pub record SettingsState : Type 0 where
  pub config : Option AdminSystemConfig
  pub notice : Option Notice
  pub purge_open : Bool
  pub purge_confirm : String
  pub purging : Bool

pub record QueueState : Type 0 where
  pub status : Option QueueStatus
  pub dead_letters : List DeadLetter
  pub error : String
  pub notice : Option Notice
  pub requeue_id : String

pub record PlatformState : Type 0 where
  pub api_config : Option ApiConfig
  pub integration : Option IfpayIntegrationConfig
  pub form : IfpayForm
  pub notice : Option Notice
  pub saving : Bool

-- One `Promise.all` of OpenPlatformView: what has been answered, and whether a call has failed.
pub record Joined : Type 0 where
  pub api_part : Option ApiConfig
  pub integration_part : Option IfpayIntegrationConfig
  pub failed : Bool

pub record AuditState : Type 0 where
  pub logs : List LogRow
  pub notice : String
  pub keyword : String
  pub action_filter : String
  pub total : ℕ

pub record Views : Type 0 where
  pub dashboard : Fetched AdminOverview
  pub users : UsersState
  pub plans : PlansState
  pub hidden : HiddenState
  pub invite : InviteState
  pub moderation : ModerationState
  pub security : SecurityState
  pub backup : BackupState
  pub orders : OrdersState
  pub records : RecordsState
  pub storage : Fetched StorageConfig
  pub hotlink : HotlinkState
  pub settings : SettingsState
  pub queue : QueueState
  pub cdn : Fetched CdnConfig
  pub platform : PlatformState
  pub audit : AuditState
