-- ===== src/AdminWeb/Rows.antt =====
-- The rows that the administrators' views keep of what the server sends.
use infinite_image_hosting.Prelude.{
  ℕ, String, ◌<>◌, Option, none, some, if_some, get_or, str_eq, ltb, if◌then◌else◌, ◌or◌, truthy,
}
use infinite_image_hosting.UserWeb.Format.{tib}
use infinite_image_hosting.UserWeb.Mapping.{before_at}
use infinite_image_hosting.AdminWeb.Types.{AdminUser, AdminUsage, AdminOrder}
use infinite_image_hosting.AdminWeb.Replies.{AdminImage, SecurityEvent, Redemption, AuditLog}
use infinite_image_hosting.AdminWeb.Text.{show_time, show_clock, or_dash}
use infinite_image_hosting.AdminWeb.Format.{format_bytes, show_cents}

pub data Risk : Type 0 where
  low medium high : Risk

pub record UserRow : Type 0 where
  pub id : String
  pub username : String
  pub email : String
  pub plan : String
  pub storage_used : String
  pub bandwidth_used : String
  pub image_requests : ℕ
  pub api_calls : ℕ
  pub process_events : ℕ
  pub status : String
  pub created_at : String
  pub risk_level : Risk

pub record OrderRow : Type 0 where
  pub id : String
  pub user : String
  pub plan : String
  pub cycle : String
  pub amount : String
  pub status : String
  pub payment : String
  pub created_at : String
  pub paid_at : String
  pub failed_at : String
  pub note : String

pub record ImageRow : Type 0 where
  pub id : String
  pub user : String
  pub filename : String
  pub size : String
  pub status : String
  pub hash : String
  pub reason : String

pub record EventRow : Type 0 where
  pub time : String
  pub type : String
  pub ip : String
  pub rule : String
  pub action : String

pub record RecordRow : Type 0 where
  pub id : String
  pub code : String
  pub user : String
  pub email : String
  pub ip : String
  pub device : String
  pub plan : String
  pub created_at : String

pub record LogRow : Type 0 where
  pub id : String
  pub time : String
  pub admin : String
  pub action : String
  pub target : String
  pub detail : String
  pub ip : String

-- `user.usage?.field`
abbrev usage_of : (AdminUsage → Option ℕ) → Option AdminUsage → Option ℕ
usage_of field usage = if_some usage none field

unfoldable pub risk_of : AdminUser → Risk
risk_of user =
    if str_eq user.status "banned"
    then high
    else if ltb tib (get_or (usage_of (λ u. u.bandwidth_bytes) user.usage) 0)
    then medium
    else low

unfoldable pub user_row : AdminUser → UserRow
unfolding risk_of before_at format_bytes show_time
user_row user = record {
  id = user.id;
  username = user.nickname or before_at user.email;
  email = user.email;
  plan = user.plan_slug or "未订阅";
  storage_used = format_bytes (usage_of (λ u. u.storage_bytes) user.usage);
  bandwidth_used = format_bytes (usage_of (λ u. u.bandwidth_bytes) user.usage);
  image_requests = get_or (usage_of (λ u. u.image_requests) user.usage) 0;
  api_calls = get_or (usage_of (λ u. u.api_calls) user.usage) 0;
  process_events = get_or (usage_of (λ u. u.image_process_events) user.usage) 0;
  status = user.status;
  created_at = show_time user.created_at;
  risk_level = risk_of user;
}

unfoldable pub order_row : AdminOrder → OrderRow
unfolding show_cents show_time
order_row order = record {
  id = order.id;
  user = order.user_id;
  plan = order.plan_slug;
  cycle = order.billing_cycle;
  amount = "¥ " <> show_cents order.amount_cent;
  status = order.status;
  payment = order.ifpay_payment_id or "-";
  created_at = show_time order.created_at;
  paid_at = show_time order.paid_at;
  failed_at = show_time order.failed_at;
  note = or_dash order.operator_note;
}

unfoldable pub image_row : AdminImage → ImageRow
unfolding format_bytes
image_row image = record {
  id = image.public_id;
  user = image.user_id;
  filename = image.filename;
  size = format_bytes (some image.bytes);
  status = image.status;
  hash = image.perceptual_hash or "-";
  reason = or_dash image.moderation_reason;
}

unfoldable pub event_row : SecurityEvent → EventRow
unfolding show_clock
event_row event = record {
  time = show_clock event.created_at;
  type = event.type;
  ip = event.ip or "-";
  rule = event.message;
  action = if truthy event.referer then "Referer: " <> event.referer else "已记录风险事件";
}

unfoldable pub record_row : Redemption → RecordRow
unfolding show_time
record_row item = record {
  id = item.id;
  code = item.code;
  user = item.user_id;
  email = item.email;
  ip = item.ip;
  device = item.device_id or "-";
  plan = item.plan_slug;
  created_at = show_time item.created_at;
}

unfoldable pub log_row : AuditLog → LogRow
unfolding show_time
log_row log = record {
  id = log.id;
  time = show_time log.created_at;
  admin = log.actor;
  action = log.action;
  target = log.target;
  detail = get_or log.metadata "-";
  ip = "-";
}
