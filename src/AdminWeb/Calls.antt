-- ===== src/AdminWeb/Calls.antt =====
-- The calls that the administrators' console makes of the server, and what they answer.
use infinite_image_hosting.Prelude.{String, Bool, Option, List}
use infinite_image_hosting.UserWeb.Types.{File}
use infinite_image_hosting.AdminWeb.Types.{
  AdminUser, AdminPlan, AdminOrder, AdminAuthStatus, AdminBootstrapStart, AdminAuthResult,
  AdminOverview, AdminSystemConfig, IfpayIntegrationConfig,
}
use infinite_image_hosting.AdminWeb.Replies.{
  Num, UserAction, OrderAction, Invite, InviteMade, Redemption, AdminImage, Paged, SecurityEvent,
  Validation, StorageConfig, HotlinkConfig, HotlinkPatch, Purged, QueueStatus, DeadLetter,
  CdnConfig, ApiConfig, IfpayForm, AuditLog,
}

pub data Call : Type 0 where
  get_overview : Call
  list_users : Call
  set_user_status : (user_id : String) → UserAction → Call
  expire_subscription : (user_id reason : String) → Call
  list_plans : Call
  save_plan : AdminPlan → Call
  grant_plan : (target : String) → (days : Num) → (reason : String) → Call
  create_invite : Invite → Call
  list_invites : Call
  list_images : (q status : Option String) → Call
  freeze_image : (id : String) → Call
  delete_image : (id : String) → Call
  list_security_events : Call
  get_system_config : Call
  export_backup : Call
  validate_backup : File → Call
  list_orders : Call
  order_action : (order_id : String) → OrderAction → (reason : String) → Call
  get_storage_config : Call
  get_hotlink : Call
  patch_hotlink : HotlinkPatch → Call
  purge_expired : Call
  get_queue_status : Call
  list_dead_letters : Call
  requeue_dead_letter : (id : String) → Call
  get_cdn_config : Call
  get_api_config : Call
  get_ifpay : Call
  patch_ifpay : IfpayForm → Call
  list_audit_logs : (q action : Option String) → Call
  ready : Call
  auth_status : Call
  bootstrap_start : (email display_name password : String) → Call
  bootstrap_complete : (setup_token totp_code : String) → Call
  auth_login : (email password totp_code : String) → Call
  auth_logout : Call

abbrev pub Result : Call → Type 0
Result get_overview = AdminOverview
Result list_users = List AdminUser
Result (set_user_status _ _) = Unit
Result (expire_subscription _ _) = Unit
Result list_plans = List AdminPlan
Result (save_plan _) = AdminPlan
Result (grant_plan _ _ _) = Unit
Result (create_invite _) = InviteMade
Result list_invites = List Redemption
Result (list_images _ _) = Paged AdminImage
Result (freeze_image _) = Unit
Result (delete_image _) = Unit
Result list_security_events = List SecurityEvent
Result get_system_config = AdminSystemConfig
Result export_backup = Unit
Result (validate_backup _) = Validation
Result list_orders = List AdminOrder
Result (order_action _ _ _) = Unit
Result get_storage_config = StorageConfig
Result get_hotlink = HotlinkConfig
Result (patch_hotlink _) = HotlinkConfig
Result purge_expired = Purged
Result get_queue_status = QueueStatus
Result list_dead_letters = List DeadLetter
Result (requeue_dead_letter _) = Unit
Result get_cdn_config = CdnConfig
Result get_api_config = ApiConfig
Result get_ifpay = IfpayIntegrationConfig
Result (patch_ifpay _) = IfpayIntegrationConfig
Result (list_audit_logs _ _) = Paged AuditLog
Result ready = Bool
Result auth_status = AdminAuthStatus
Result (bootstrap_start _ _ _) = AdminBootstrapStart
Result (bootstrap_complete _ _) = AdminAuthResult
Result (auth_login _ _ _) = AdminAuthResult
Result auth_logout = Unit

-- A call with the session token that it is sent with, "" for none.
pub record Request : Type 0 where
  pub token : String
  pub call : Call

-- The response to a call that the server did not refuse: status 401 with the message of its body, or
-- the data of an envelope that says `ok`. All else that may happen is thrown.
pub data Answer (A : Type 0) : Type 0 where
  unauthorized : (message : String) → Answer A
  accepted : A → Answer A

abbrev pub Reply : Request → Type 0
Reply r = Answer (Result r.call)
