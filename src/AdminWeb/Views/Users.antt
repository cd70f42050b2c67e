-- ===== src/AdminWeb/Views/Users.antt =====
-- UserManageView: the accounts, their ban, and the forced end of a subscription.
use infinite_image_hosting.Prelude.{
  ℕ, String, ◌<>◌, Bool, true, false, if◌then◌else◌, truthy, Option, none, some, if_some, List, [],
  ◌∷◌, map, filter, any,
}
use infinite_image_hosting.Async.Program.{message_or, pure}
use infinite_image_hosting.AdminWeb.Calls
use infinite_image_hosting.AdminWeb.Text.{TextOps, blank}
use infinite_image_hosting.AdminWeb.Page.{
  detach, ◌>>=◌, ◌>>◌, caught, ensured, AdminPage, Handler, set_views, download_text, good, bad,
}
use infinite_image_hosting.AdminWeb.Session.{admin_fetch}
use infinite_image_hosting.AdminWeb.Replies.{UserAction, ban, unban}
use infinite_image_hosting.AdminWeb.Rows.{UserRow, user_row}
use infinite_image_hosting.AdminWeb.Cells.{UsersState}
use infinite_image_hosting.AdminWeb.Csv.{encode_csv}

abbrev set_users : (mount : ℕ) → (UsersState → UsersState) → Handler (Unit {0})
set_users mount f = set_views mount (λ v. record v { users = f v.users })

unfoldable pub load_users : (seen : AdminPage) → Handler (Unit {0})
unfolding set_views admin_fetch user_row
load_users seen =
    caught
      (do
        rows ← admin_fetch Calls.list_users
        set_users seen.view_run (λ c. record c { users = map user_row rows }))
      (λ x.
        set_users seen.view_run
          (λ c. record c { users = []; notice = bad (message_or "用户列表读取失败，请检查 API 服务。" x) }))

unfoldable pub set_user_status :
    (seen : AdminPage) → (user_id : String) → UserAction → Handler (Unit {0})
unfolding set_views admin_fetch load_users
set_user_status seen user_id action =
    if truthy seen.views.users.user_action_id then pure tt else (do
      set_users seen.view_run (λ c. record c { user_action_id = user_id })
      ensured
          (caught
            (do
              done ← admin_fetch (Calls.set_user_status user_id action)
              set_users seen.view_run (λ c. record c { notice = good (status_text action) })
              detach (load_users seen))
            (λ x.
              set_users seen.view_run
                (λ c. record c { notice = bad (message_or "操作失败，请检查后台服务。" x) })))
          (set_users seen.view_run (λ c. record c { user_action_id = "" })))
  where
    status_text : UserAction → String
    status_text ban = "账号已封禁，API Key 和会话访问将被拒绝。"
    status_text unban = "账号已恢复为正常状态。"

-- `setExpiringUser(row); setExpireReason(…)`
unfoldable pub open_expiry : (seen : AdminPage) → UserRow → Handler (Unit {0})
unfolding set_views
open_expiry seen row =
    set_users seen.view_run
      (λ c. record c { expiring_user = some row; expire_reason = "运营手动结束订阅：" <> row.email })

unfoldable pub close_expiry : (seen : AdminPage) → Handler (Unit {0})
unfolding set_views
close_expiry seen =
    if seen.views.users.expiring
    then pure tt
    else set_users seen.view_run (λ c. record c { expiring_user = none; expire_reason = "" })

unfoldable pub select_user : (seen : AdminPage) → Option UserRow → Handler (Unit {0})
unfolding set_views
select_user seen row = set_users seen.view_run (λ c. record c { selected_user = row })

unfoldable pub set_keyword : (seen : AdminPage) → String → Handler (Unit {0})
unfolding set_views
set_keyword seen text = set_users seen.view_run (λ c. record c { keyword = text })

unfoldable pub set_expire_reason : (seen : AdminPage) → String → Handler (Unit {0})
unfolding set_views
set_expire_reason seen text = set_users seen.view_run (λ c. record c { expire_reason = text })

-- The request that `expireSubscription` makes, with the cells after it.
unfoldable pub expire_task : (seen : AdminPage) → (user_id reason : String) → Handler (Unit {0})
unfolding set_views admin_fetch load_users
expire_task seen user_id reason = do
  set_users seen.view_run (λ c. record c { expiring = true })
  ensured
      (caught
        (do
          done ← admin_fetch (Calls.expire_subscription user_id reason)
          set_users seen.view_run (λ c. record c {
            notice = good "订阅已切入 30 天只读保留期，用户将无法继续上传。";
            expiring_user = none;
            expire_reason = "";
          })
          detach (load_users seen))
        (λ x.
          set_users seen.view_run
            (λ c. record c { notice = bad (message_or "订阅到期操作失败，请检查后台服务。" x) })))
      (set_users seen.view_run (λ c. record c { expiring = false }))

module _ (ops : TextOps) where
  unfoldable pub expire_subscription : (seen : AdminPage) → Handler (Unit {0})
  unfolding set_views expire_task
  expire_subscription seen =
      let cells = seen.views.users in
      if_some cells.expiring_user (pure tt) (λ user.
        if cells.expiring
        then pure tt
        else if blank ops cells.expire_reason
        then set_users seen.view_run (λ c. record c { notice = bad "请填写强制到期的审计原因。" })
        else expire_task seen user.id (ops.trim cells.expire_reason))

  abbrev matches_user : (query : String) → UserRow → Bool
  matches_user query user =
      any (λ (v : String). ops.contains (ops.to_lower v) query)
        (user.id ∷ user.username ∷ user.email ∷ user.plan ∷ user.status ∷ [])

  unfoldable pub filtered_users : UsersState → List UserRow
  filtered_users cells =
      let query = ops.to_lower (ops.trim cells.keyword) in
      filter (λ (user : UserRow). if truthy query then matches_user query user else true)
        cells.users

  abbrev pub user_cells : UserRow → List String
  user_cells user =
      user.id ∷ user.username ∷ user.email ∷ user.plan ∷ user.status ∷ user.storage_used
      ∷ user.created_at ∷ []

  unfoldable pub users_csv : UsersState → String
  unfolding filtered_users encode_csv
  users_csv cells = encode_csv (
      ("id" ∷ "username" ∷ "email" ∷ "plan" ∷ "status" ∷ "storage_used" ∷ "created_at" ∷ [])
      ∷ map user_cells (filtered_users cells))

  unfoldable pub export_users : (seen : AdminPage) → Handler (Unit {0})
  unfolding download_text users_csv
  export_users seen = download_text "yuexiang-users.csv" (users_csv seen.views.users)

  -- The button `搜索`: `setKeyword(keyword.trim())`
  unfoldable pub search_users : (seen : AdminPage) → Handler (Unit {0})
  unfolding set_keyword
  search_users seen = set_keyword seen (ops.trim seen.views.users.keyword)
