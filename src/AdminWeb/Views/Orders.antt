-- ===== src/AdminWeb/Views/Orders.antt =====
-- OrdersView: orders paid by hand, cancelled and refunded.
use infinite_image_hosting.Prelude.{
  ℕ, String, ◌<>◌, str_eq, Bool, true, false, not, ◌||◌, if◌then◌else◌, truthy, none, some, if_some,
  List, [], ◌∷◌, map, filter, any,
}
use infinite_image_hosting.Async.Program.{message_or, pure}
use infinite_image_hosting.AdminWeb.Calls
use infinite_image_hosting.AdminWeb.Text.{TextOps}
use infinite_image_hosting.AdminWeb.Page.{
  detach, ◌>>=◌, ◌>>◌, caught, ensured, AdminPage, Handler, set_views, download_text, good, bad,
}
use infinite_image_hosting.AdminWeb.Session.{admin_fetch}
use infinite_image_hosting.AdminWeb.Replies.{OrderAction, mark_paid, cancel, refund}
use infinite_image_hosting.AdminWeb.Rows.{OrderRow, order_row}
use infinite_image_hosting.AdminWeb.Cells.{OrdersState}
use infinite_image_hosting.AdminWeb.Csv.{encode_csv}

abbrev set_orders : (mount : ℕ) → (OrdersState → OrdersState) → Handler (Unit {0})
set_orders mount f = set_views mount (λ v. record v { orders = f v.orders })

unfoldable pub load_orders : (seen : AdminPage) → Handler (Unit {0})
unfolding set_views admin_fetch order_row
load_orders seen =
    caught
      (do
        rows ← admin_fetch Calls.list_orders
        set_orders seen.view_run (λ c. record c { orders = map order_row rows }))
      (λ x.
        set_orders seen.view_run
          (λ c. record c { orders = []; notice = bad (message_or "订单列表读取失败，请检查 API 服务。" x) }))

abbrev kind_label : OrderAction → String
kind_label mark_paid = "人工入账对账"
kind_label cancel = "取消未支付订单"
kind_label refund = "退款并终止权益"

unfoldable pub open_order_action : (seen : AdminPage) → OrderRow → OrderAction → Handler (Unit {0})
unfolding set_views
open_order_action seen row kind = set_orders seen.view_run (λ c. record c {
  action_target = some row;
  action_kind = kind;
  action_reason = kind_label kind <> ("：" <> row.id);
})

unfoldable pub close_order_action : (seen : AdminPage) → Handler (Unit {0})
unfolding set_views
close_order_action seen =
    if seen.views.orders.submitting_action
    then pure tt
    else set_orders seen.view_run (λ c. record c { action_target = none; action_reason = "" })

unfoldable pub set_action_reason : (seen : AdminPage) → String → Handler (Unit {0})
unfolding set_views
set_action_reason seen text = set_orders seen.view_run (λ c. record c { action_reason = text })

unfoldable pub set_order_keyword : (seen : AdminPage) → String → Handler (Unit {0})
unfolding set_views
set_order_keyword seen text = set_orders seen.view_run (λ c. record c { keyword = text })

unfoldable pub set_order_filter : (seen : AdminPage) → String → Handler (Unit {0})
unfolding set_views
set_order_filter seen text = set_orders seen.view_run (λ c. record c { status_filter = text })

module _ (ops : TextOps) where
  unfoldable pub submit_order_action : (seen : AdminPage) → Handler (Unit {0})
  unfolding set_views admin_fetch load_orders
  submit_order_action seen =
      let cells = seen.views.orders in
      if_some cells.action_target (pure tt) (λ target.
        if cells.submitting_action then pure tt else (do
          set_orders seen.view_run (λ c. record c { submitting_action = true })
          ensured
              (caught
                (do
                  done ← admin_fetch (
                      Calls.order_action target.id cells.action_kind (ops.trim cells.action_reason))
                  set_orders seen.view_run (λ c. record c {
                    notice = good "订单操作已完成，并写入审计日志。";
                    action_target = none;
                    action_reason = "";
                  })
                  detach (load_orders seen))
                (λ x.
                  set_orders seen.view_run
                    (λ c. record c { notice = bad (message_or "订单操作失败，请检查后台服务。" x) })))
              (set_orders seen.view_run (λ c. record c { submitting_action = false }))))

  abbrev matches_order : (query : String) → OrderRow → Bool
  matches_order query order =
      any (λ (v : String). ops.contains (ops.to_lower v) query)
        (order.id ∷ order.user ∷ order.plan ∷ order.status ∷ order.payment ∷ order.note ∷ [])

  unfoldable pub filtered_orders : OrdersState → List OrderRow
  filtered_orders cells =
      let query = ops.to_lower (ops.trim cells.keyword) in
      filter
        (λ (order : OrderRow).
          if not (truthy cells.status_filter) || str_eq order.status cells.status_filter
          then (if truthy query then matches_order query order else true)
          else false)
        cells.orders

  abbrev pub order_cells : OrderRow → List String
  order_cells order =
      order.id ∷ order.user ∷ order.plan ∷ order.cycle ∷ order.amount ∷ order.status ∷ order.payment
      ∷ order.paid_at ∷ order.failed_at ∷ order.created_at ∷ order.note ∷ []

  unfoldable pub orders_csv : OrdersState → String
  unfolding filtered_orders encode_csv
  orders_csv cells = encode_csv (
      ("id" ∷ "user_id" ∷ "plan" ∷ "cycle" ∷ "amount" ∷ "status" ∷ "payment" ∷ "paid_at"
        ∷ "failed_at" ∷ "created_at" ∷ "note" ∷ [])
      ∷ map order_cells (filtered_orders cells))

  unfoldable pub export_orders : (seen : AdminPage) → Handler (Unit {0})
  unfolding download_text orders_csv
  export_orders seen = download_text "yuexiang-orders.csv" (orders_csv seen.views.orders)
