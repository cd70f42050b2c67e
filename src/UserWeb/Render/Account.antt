-- ===== src/UserWeb/Render/Account.antt =====
-- What SettingsView and BackupView show. A button that opens a file dialog is shown by the
-- `file_input` that takes the dialog's pick.
use infinite_image_hosting.Prelude.{String, false, not, if◌then◌else◌, truthy, List, [], ◌∷◌, ◌++◌}
use infinite_image_hosting.Async.Program.{Prog, run}
use infinite_image_hosting.UserWeb.Types.{User}
use infinite_image_hosting.UserWeb.Mapping.{slice_to}
use infinite_image_hosting.UserWeb.Page.{Page, Running}
use infinite_image_hosting.UserWeb.Views.Settings.{
  handle_avatar_file, save_profile, request_destroy, resend_verification, set_alias,
  set_destroy_reason, remove_avatar,
}
use infinite_image_hosting.UserWeb.Views.Backup.{export_backup, import_backup}
use infinite_image_hosting.UserWeb.Html.{
  Element, label, button, asking_button, clickable, picture, file_input, text_input, fixed_input,
  shown_if,
}

-- `input.click()` leaves the page as it is; what is picked reaches the input's handler.
abbrev open_dialog : Running
open_dialog = Prog.stop

module _ (trim : String → String) where
  unfoldable pub settings_view : (seen : Page) → User → List Element
  unfolding slice_to
  settings_view seen user =
      let cells = seen.settings in
      (label "基本配置"
        ∷ (if truthy cells.avatar_url
            then picture cells.avatar_url "Avatar"
            else label (slice_to 1 user.name))
        ∷ file_input "image/*" (λ file. run (handle_avatar_file file))
        ∷ button "上传新 Avatar" false open_dialog
        ∷ [])
      ++ (shown_if (truthy cells.avatar_url) (button "移除" false (run remove_avatar) ∷ [])
          ++ ((label "管理员别名 (Alias)"
                ∷ text_input cells.alias "" (λ text. run (set_alias text))
                ∷ label "主告警邮箱 (Primary Email)"
                ∷ fixed_input user.email
                ∷ label "邮箱验证状态"
                ∷ label (if user.email_verified then "已验证，可上传对象和创建 API Key" else "未验证，上传写入会被限制")
                ∷ [])
              ++ (shown_if (not user.email_verified) (
                    button (if cells.resending then "发送中" else "重发验证码") cells.resending
                      (run (resend_verification user.id))
                    ∷ [])
                  ++ (button "保存配置" false (run (save_profile trim seen.token cells))
                      ∷ label "高危操作区 (Danger Zone)"
                      ∷ label "销毁账号会先创建人工复核工单并写入审计日志。真正硬删除应在备份确认、账务结清和维护窗口内执行。"
                      ∷ text_input cells.destroy_reason "可选：填写注销原因，便于人工复核"
                          (λ text. run (set_destroy_reason text))
                      ∷ asking_button "申请销毁账号"
                          (λ confirmed. run (request_destroy trim seen.token cells confirmed))
                      ∷ []))))

unfoldable pub backup_view : (seen : Page) → List Element
backup_view seen =
    label "生成数据快照 (Export ZIP)"
    ∷ label "将当前账号图片对象、元数据、Manifest 与 checksums.sha256 打包下载，便于异地灾备或迁移。"
    ∷ button "下载备份 ZIP" false (run (export_backup seen.token))
    ∷ label "归档数据导入 (Import)"
    ∷ file_input ".zip,application/zip" (λ file. run (import_backup seen.token file))
    ∷ clickable open_dialog
    ∷ label "点击上传 Backup Archive (ZIP) 并解析恢复"
    ∷ label "校验 manifest.json 与 checksums.sha256 后恢复对象"
    ∷ label "* 导入会为当前账号生成新的 Public ID，不会覆盖线上已有对象。"
    ∷ []
