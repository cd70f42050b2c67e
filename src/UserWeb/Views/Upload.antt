-- ===== src/UserWeb/Views/Upload.antt =====
-- UploadView: dropping or picking a file, and the progress of its upload.
pub mod Progress
use infinite_image_hosting.Prelude.{String, true, false, Option, none, some, List, ◌∷◌, []}
use infinite_image_hosting.Async.Program.{
  message_or, pure, set_state, try_catch, try_finally, set_timeout, ◌>>=◌, ◌>>◌,
}
use infinite_image_hosting.UserWeb.Mapping.{Env}
use infinite_image_hosting.UserWeb.Types.{File, ImageItem, error as error_toast}
use infinite_image_hosting.UserWeb.Page.{Page, Handler, UploadState, show_toast}
use infinite_image_hosting.UserWeb.App.Account.{handle_resend_verification}
use infinite_image_hosting.UserWeb.App.Images.{handle_upload_file}
use infinite_image_hosting.UserWeb.App.Navigation.{on_upload_success}

unfoldable pub set_upload : (UploadState → UploadState) → Handler (Unit {0})
set_upload f = set_state (λ s. record s { upload = f s.upload })

-- `handleUpload` over the callbacks that the view is given. With no file it opens the file dialog.
unfoldable pub handle_upload :
    (on_upload_file : File → Handler ImageItem)
    → (on_upload_success : ImageItem → Handler (Unit {0}))
    → (on_upload_error : String → Handler (Unit {0})) → Option File
    → Handler (Unit {0})
handle_upload on_file on_success on_error none = pure tt
handle_upload on_file on_success on_error (some file) = do
  set_upload (λ u. record u { uploading = true; progress = 35 })
  try_catch
      (do
        uploaded ← on_file file
        set_upload (λ u. record u { progress = 100 })
        set_timeout 250 (do
          set_upload (λ u. record u { uploading = false; progress = 0 })
          on_success uploaded))
      (λ x. do
        set_upload (λ u. record u { uploading = false; progress = 0 })
        on_error (message_or "上传失败" x))

-- The handler as App wires it: the callbacks are closures over the same render.
unfoldable pub upload : Env → (seen : Page) → Option File → Handler (Unit {0})
upload env seen =
    handle_upload (handle_upload_file env seen) (on_upload_success env seen)
      (λ message. show_toast message error_toast)

unfoldable pub drag_over : Handler (Unit {0})
drag_over = set_upload (λ u. record u { is_dragging = true })

unfoldable pub drag_leave : Handler (Unit {0})
drag_leave = set_upload (λ u. record u { is_dragging = false })

-- `files` are the dropped files: the first one is uploaded.
unfoldable pub drop_files : Env → (seen : Page) → List File → Handler (Unit {0})
drop_files env seen [] = do set_upload (λ u. record u { is_dragging = false }); upload env seen none
drop_files env seen (file ∷ files) = do
  set_upload (λ u. record u { is_dragging = false })
  upload env seen (some file)

-- `onResendVerification` of App: it waits for the mail and forgets the code.
unfoldable pub on_resend_verification : (user_id : String) → Handler (Unit {0})
on_resend_verification user_id = do _ ← handle_resend_verification user_id; pure tt

unfoldable pub resend_verification : (user_id : String) → Handler (Unit {0})
resend_verification user_id = do
  set_upload (λ u. record u { resending = true })
  try_finally (on_resend_verification user_id) (set_upload (λ u. record u { resending = false }))
