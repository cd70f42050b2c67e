-- ===== src/UserWeb/Views/Settings.antt =====
-- SettingsView: the profile, the avatar and the request to destroy the account.
pub mod Avatar
use infinite_image_hosting.Prelude.{
  ℕ, String, ◌<>◌, Bool, true, false, not, ◌||◌, ltb, if◌then◌else◌, ◌or◌, Option, none, some,
  get_or,
}
use infinite_image_hosting.Async.Program.{
  pure, set_state, fetch, try_catch, try_finally, detach, ◌>>=◌, ◌>>◌,
}
use infinite_image_hosting.UserWeb.Mapping.{starts_with, size_of, map_user}
use infinite_image_hosting.UserWeb.Http
use infinite_image_hosting.UserWeb.Types.{User, File, success, error as error_toast}
use infinite_image_hosting.UserWeb.Page.{Handler, SettingsState, show_toast, show_error}
use infinite_image_hosting.UserWeb.Views.Upload.{on_resend_verification}

unfoldable pub set_settings : (SettingsState → SettingsState) → Handler (Unit {0})
set_settings f = set_state (λ s. record s { settings = f s.settings })

-- The effect on the user's avatar and name.
unfoldable pub sync_profile : User → Handler (Unit {0})
sync_profile user =
    set_settings (λ c. record c { alias = user.name; avatar_url = get_or user.avatar_url "" or "" })

abbrev pub avatar_limit : ℕ
avatar_limit = 524288

-- `reader.onload`
unfoldable pub avatar_loaded : String → Handler (Unit {0})
unfolding starts_with size_of
avatar_loaded next_url =
    if not (starts_with "data:image/" next_url) || ltb avatar_limit (size_of next_url)
    then show_toast "图片编码后超过限制，请压缩后重试" error_toast
    else (do
      set_settings (λ c. record c { avatar_url = next_url })
      show_toast "Avatar 已预览，保存配置后生效" success)

-- The reader's `onload` and `onerror` are the two outcomes of the read.
unfoldable pub handle_avatar_file : Option File → Handler (Unit {0})
handle_avatar_file none = pure tt
handle_avatar_file (some file) =
    if not (starts_with "image/" file.mime)
    then show_toast "请选择图片文件作为 Avatar" error_toast
    else if ltb avatar_limit file.size
    then show_toast "Avatar 图片请控制在 512KB 以内" error_toast
    else detach (
        try_catch (do next_url ← fetch (Http.read_data_url file); avatar_loaded next_url)
          (λ _. show_toast "Avatar 读取失败，请重试" error_toast))

-- `trim` is JavaScript's; `shown` holds the cells of the render.
module _ (trim : String → String) where
  unfoldable pub save_profile : (token : String) → (shown : SettingsState) → Handler (Unit {0})
  save_profile token shown = show_error "保存失败" (do
    user ← fetch (Http.patch_profile (trim shown.alias) shown.avatar_url token)
    set_state (λ s. record s { user = some (map_user user) })
    show_toast "配置已保存" success)

  unfoldable pub request_destroy :
      (token : String) → (shown : SettingsState) → (confirmed : Bool) → Handler (Unit {0})
  request_destroy token shown confirmed =
      if not confirmed
      then pure tt
      else show_error "工单提交失败" (do
        ticket_id ← fetch (Http.request_destroy (trim shown.destroy_reason) token)
        show_toast ("销毁工单已提交：" <> ticket_id) error_toast)

unfoldable pub resend_verification : (user_id : String) → Handler (Unit {0})
resend_verification user_id = do
  set_settings (λ c. record c { resending = true })
  try_finally (on_resend_verification user_id) (set_settings (λ c. record c { resending = false }))

-- The inputs: `setAlias`, `setDestroyReason`, and the button that removes the avatar.
unfoldable pub set_alias : String → Handler (Unit {0})
set_alias alias = set_settings (λ c. record c { alias = alias })

unfoldable pub set_destroy_reason : String → Handler (Unit {0})
set_destroy_reason reason = set_settings (λ c. record c { destroy_reason = reason })

unfoldable pub remove_avatar : Handler (Unit {0})
remove_avatar = set_settings (λ c. record c { avatar_url = "" })
