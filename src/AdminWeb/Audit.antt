-- ===== src/AdminWeb/Audit.antt =====
-- What every request of the administrators' console must say, and how its session may change.
pub mod Rules
pub mod Accounts
pub mod Sales
pub mod Content
pub mod System
pub mod Gate
pub mod Actions
pub mod Loop
pub mod Tabs
use infinite_image_hosting.Prelude.{◌≡◌, ◌⊎◌, true, false, Bool, ◌&&◌, truthy, none}
use infinite_image_hosting.AdminWeb.Types.{AdminPlan, Visibility, visible, hidden}
use infinite_image_hosting.AdminWeb.Calls.{
  Call, Request, expire_subscription, grant_plan, order_action, create_invite, save_plan,
}
use infinite_image_hosting.AdminWeb.Page.{AdminPage}

-- A plan that is hidden and for sale.
abbrev pub contradictory : AdminPlan → Bool
contradictory plan = hidden_sale plan.visibility plan.purchasable
  where
    hidden_sale : Visibility → Bool → Bool
    hidden_sale visible purchasable = false
    hidden_sale hidden purchasable = purchasable

-- The calls that change what a user has say why; those that make something name it.
abbrev pub AuditedCall : Call → Type 0
AuditedCall (expire_subscription user_id reason) = truthy reason ≡ true
AuditedCall (grant_plan target days reason) = (truthy target ≡ true) × (truthy reason ≡ true)
AuditedCall (order_action order_id action reason) = truthy reason ≡ true
AuditedCall (create_invite invite) = (truthy invite.name ≡ true) × (truthy invite.plan_slug ≡ true)
AuditedCall (save_plan plan) = contradictory plan ≡ false
AuditedCall _ = Unit

abbrev pub Audited : Request → Type 0
Audited r = AuditedCall r.call

-- From `s` to `t` the session is kept as it is, or both its parts are gone.
abbrev pub Ends : AdminPage → AdminPage → Type 0
Ends s t = ((t.admin ≡ s.admin) × (t.stored ≡ s.stored)) ⊎ ((t.admin ≡ none) × (t.stored ≡ none))

abbrev pub Free : AdminPage → AdminPage → Type 0
Free s t = Unit
