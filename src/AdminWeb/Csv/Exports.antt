-- ===== src/AdminWeb/Csv/Exports.antt =====
-- The files that UserManageView and OrdersView save.
use infinite_image_hosting.Prelude.{String, ◌≡◌, ap, refl, List, [], ◌∷◌, map}
use infinite_image_hosting.AdminWeb.Text.{TextOps}
use infinite_image_hosting.AdminWeb.Rows.{UserRow, OrderRow}
use infinite_image_hosting.AdminWeb.Cells.{UsersState, OrdersState}
use infinite_image_hosting.AdminWeb.Csv.{encode_csv}
use infinite_image_hosting.AdminWeb.Csv.Reader.{read_csv, before, to_rows, read_csv-encode_csv}
use infinite_image_hosting.AdminWeb.Views.Users.{users_csv, filtered_users, user_cells}
use infinite_image_hosting.AdminWeb.Views.Orders.{orders_csv, filtered_orders, order_cells}

abbrev user_rest : UserRow → String × List String
user_rest user = (
  user.id,
  user.username ∷ user.email ∷ user.plan ∷ user.status ∷ user.storage_used ∷ user.created_at ∷ [],
)

abbrev order_rest : OrderRow → String × List String
order_rest order = (
  order.id,
  order.user ∷ order.plan ∷ order.cycle ∷ order.amount ∷ order.status ∷ order.payment
      ∷ order.paid_at ∷ order.failed_at ∷ order.created_at ∷ order.note ∷ [],
)

users-to_rows :
    (ops : TextOps) (users : List UserRow)
    → map (user_cells ops) users ≡ to_rows (map user_rest users)
users-to_rows ops [] = refl
users-to_rows ops (user ∷ users) =
    ap (λ (rows : List (List String)). user_cells ops user ∷ rows) (users-to_rows ops users)

orders-to_rows :
    (ops : TextOps) (orders : List OrderRow)
    → map (order_cells ops) orders ≡ to_rows (map order_rest orders)
orders-to_rows ops [] = refl
orders-to_rows ops (order ∷ orders) =
    ap (λ (rows : List (List String)). order_cells ops order ∷ rows) (orders-to_rows ops orders)

-- The saved text of some rows under a header.
read_back :
    (cell : String) (row : List String) (rows : List (List String))
    (parts : List (String × List String))
    → rows ≡ to_rows parts
    → read_csv before (encode_csv ((cell ∷ row) ∷ rows)) ≡ (cell ∷ row) ∷ rows
read_back cell row rows parts same = rw same (read_csv-encode_csv cell row parts)

-- A reader of quoted CSV gets back from either file that is saved the header and one row for each user
-- or order that the search and the filter let through, in their order, cell by cell, whatever
-- characters the cells hold.
pub exports_read_back :
    (ops : TextOps) (users : UsersState) (orders : OrdersState)
    → (read_csv before (users_csv ops users)
        ≡ ("id" ∷ "username" ∷ "email" ∷ "plan" ∷ "status" ∷ "storage_used" ∷ "created_at" ∷ [])
          ∷ map (user_cells ops) (filtered_users ops users))
      × (read_csv before (orders_csv ops orders)
          ≡ ("id" ∷ "user_id" ∷ "plan" ∷ "cycle" ∷ "amount" ∷ "status" ∷ "payment" ∷ "paid_at"
              ∷ "failed_at" ∷ "created_at" ∷ "note" ∷ [])
            ∷ map (order_cells ops) (filtered_orders ops orders))
unfolding users_csv orders_csv
exports_read_back ops users orders = (
  read_back _ _ _ _ (users-to_rows ops (filtered_users ops users)),
  read_back _ _ _ _ (orders-to_rows ops (filtered_orders ops orders)),
)
