-- ===== src/AdminWeb/Views/Queue.antt =====
-- QueueStatusView: the task queue and its dead letters.
use infinite_image_hosting.Prelude.{
  ℕ, String, ◌<>◌, str_eq, Bool, false, if◌then◌else◌, truthy, none, some, if_some, [],
}
use infinite_image_hosting.Async.Program.{message_or, pure}
use infinite_image_hosting.AdminWeb.Calls
use infinite_image_hosting.AdminWeb.Page.{
  detach, ◌>>=◌, ◌>>◌, caught, ensured, AdminPage, Handler, set_views, good, bad,
}
use infinite_image_hosting.AdminWeb.Session.{admin_fetch}
use infinite_image_hosting.AdminWeb.Replies.{QueueStatus}
use infinite_image_hosting.AdminWeb.Cells.{QueueState}

abbrev set_queue : (mount : ℕ) → (QueueState → QueueState) → Handler (Unit {0})
set_queue mount f = set_views mount (λ v. record v { queue = f v.queue })

abbrev load_dead_letters : (mount : ℕ) → Handler (Unit {0})
load_dead_letters mount =
    caught
      (do
        letters ← admin_fetch Calls.list_dead_letters
        set_queue mount (λ c. record c { dead_letters = letters }))
      (λ x.
        set_queue mount
          (λ c. record c { dead_letters = []; notice = bad (message_or "Dead Letter 读取失败" x) }))

abbrev uses_redis : QueueStatus → Bool
uses_redis status = if_some status.driver false (λ d. str_eq d "redis")

unfoldable pub load_status : (seen : AdminPage) → Handler (Unit {0})
unfolding set_views admin_fetch
load_status seen = do
  set_queue seen.view_run (λ c. record c { error = "" })
  caught
      (do
        status ← admin_fetch Calls.get_queue_status
        set_queue seen.view_run (λ c. record c { status = some status })
        if uses_redis status
            then detach (load_dead_letters seen.view_run)
            else set_queue seen.view_run (λ c. record c { dead_letters = [] }))
      (λ x.
        set_queue seen.view_run
          (λ c. record c { status = none; dead_letters = []; error = message_or "队列状态读取失败" x }))

unfoldable pub requeue_dead_letter : (seen : AdminPage) → (id : String) → Handler (Unit {0})
unfolding set_views admin_fetch load_status
requeue_dead_letter seen id = if truthy seen.views.queue.requeue_id then pure tt else (do
  set_queue seen.view_run (λ c. record c { requeue_id = id })
  ensured
      (caught
        (do
          done ← admin_fetch (Calls.requeue_dead_letter id)
          set_queue seen.view_run
              (λ c. record c { notice = good ("Dead Letter " <> (id <> " 已重新投递。")) })
          detach (load_status seen))
        (λ x.
          set_queue seen.view_run
            (λ c. record c { notice = bad (message_or "重新投递失败，请检查队列服务。" x) })))
      (set_queue seen.view_run (λ c. record c { requeue_id = "" })))
