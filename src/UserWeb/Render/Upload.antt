-- ===== src/UserWeb/Render/Upload.antt =====
-- What UploadView shows. "点击上传" and the button open the file dialog, whose pick is the input's.
use infinite_image_hosting.Prelude.{◌<>◌, false, not, if◌then◌else◌, none, List, [], ◌∷◌, ◌++◌}
use infinite_image_hosting.Async.Program.{run}
use infinite_image_hosting.UserWeb.Types.{User}
use infinite_image_hosting.UserWeb.Format.{show}
use infinite_image_hosting.UserWeb.Mapping.{Env}
use infinite_image_hosting.UserWeb.Page.{Page}
use infinite_image_hosting.UserWeb.Views.Upload.{
  upload, resend_verification, drag_over, drag_leave, drop_files,
}
use infinite_image_hosting.UserWeb.Html.{
  Element, label, bar, button, clickable, drop_zone, file_input, shown_if,
}

unfoldable pub upload_view : Env → (seen : Page) → User → List Element
upload_view env seen user =
    let resending = seen.upload.resending in
    let progress = show seen.upload.progress in
    (label "对象上传" ∷ label "支持拖拽或点击上传，单文件限制：20MB。格式支持：JPG, PNG, GIF, WebP, AVIF, SVG。" ∷ [])
    ++ (shown_if (not user.email_verified) (
          label "当前邮箱尚未验证。为保护对象桶写入安全，上传前需要先完成邮箱验证。"
          ∷ button (if resending then "发送中..." else "重发验证码") resending
              (run (resend_verification user.id))
          ∷ [])
        ++ (drop_zone (run drag_over) (run drag_leave) (λ files. run (drop_files env seen files))
            ∷ (if seen.upload.uploading
                then label "正在写入至私有 Bucket..."
                  ∷ bar seen.upload.progress
                  ∷ label (progress <> "% / 100%")
                  ∷ []
                else file_input "image/*,.svg" (λ file. run (upload env seen file))
                  ∷ label "将文件拖到此处，或 "
                  ∷ clickable (run (upload env seen none))
                  ∷ label "点击上传"
                  ∷ label "可同时选择多个文件，上传完成后将自动应用 Bucket 默认防盗链策略"
                  ∷ button "选择本地文件" false (run (upload env seen none))
                  ∷ [])))
