-- ===== src/UserWeb/Tests/Formats.antt =====
-- The theorems on formats and the wire, at concrete values.
use infinite_image_hosting.Prelude.{ℕ, ◌≤◌, ◌<◌, ◌<>◌, ◌≡◌, ◌↔◌, ◌⊎◌, refl, true, none, some, arith}
use infinite_image_hosting.Async.Program.{ok}
use infinite_image_hosting.UserWeb.Format.{meter_percent, format_bytes, format_quota_bytes}
use infinite_image_hosting.UserWeb.Format.Rounding.{
  format_bytes-nearest, format_bytes-near_mib, meter_percent_bounds, Prints, IsRounding,
}
use infinite_image_hosting.UserWeb.Http
use infinite_image_hosting.UserWeb.Http.Envelope.{
  Response, received, api_fetch, IsAccepted, api_fetch-ok,
}
use infinite_image_hosting.UserWeb.Http.Wire.{wire, HttpRequest, get, no_body}
use infinite_image_hosting.UserWeb.Http.Wire.Credentials.{wire_authorization}
use infinite_image_hosting.UserWeb.Tests.Data.{env}

prints_kb : format_bytes 1536 ≡ "1.5 KB"
unfolding format_bytes
prints_kb = refl

prints_full_kb : format_bytes 1048575 ≡ "1024.0 KB"
unfolding format_bytes
prints_full_kb = refl

prints_gb : format_quota_bytes (some 21474836480) ≡ "20GB"
unfolding format_quota_bytes
prints_gb = refl

format_bytes-nearest_example :
    ((1536 < 1048576) × Prints (format_bytes 1536) " KB" 1536 1024)
    ⊎ ((1048576 ≤ 1536) × (1536 < 1073741824) × Prints (format_bytes 1536) " MB" 1536 1048576)
    ⊎ ((1073741824 ≤ 1536) × Prints (format_bytes 1536) " GB" 1536 1073741824)
format_bytes-nearest_example = format_bytes-nearest 1536

format_bytes-near_mib_example : format_bytes 1048575 ≡ "1024.0 KB"
format_bytes-near_mib_example = format_bytes-near_mib 1048575 (omega arith) (omega arith)

floats-IsRounding : IsRounding env.floats
floats-IsRounding = record {
  from_one = λ a b positive le. omega arith;
  of_zero = λ b positive. refl;
  hundredfold = λ x le. omega arith;
  zero_times = λ x none_left. omega arith;
}

meter_percent_bounds_example :
    (meter_percent env.floats 5 (some 10) ≤ 100)
    × (meter_percent env.floats 13 (some 11) ≡ 100)
    × (meter_percent env.floats 0 (some 10) ≡ 0)
    × (meter_percent env.floats 5 none ≡ 0)
    × (meter_percent env.floats 5 (some 0) ≡ 0)
meter_percent_bounds_example = meter_percent_bounds env.floats 5 10 2 floats-IsRounding

abbrev reply : Response ℕ
reply = received true 200 (record { is_ok = true; content = 7; problem = none })

api_fetch-ok_example : (api_fetch reply ≡ ok 7) ↔ IsAccepted reply 7
api_fetch-ok_example = api_fetch-ok reply 7

abbrev me_call : HttpRequest
me_call = record {
  method = get;
  path = "/auth/me";
  body = no_body;
  content_type = some "Content-Type: application/json";
  authorization = some "Bearer t1";
}

wire_authorization_example : me_call.authorization ≡ some ("Bearer " <> "t1")
unfolding wire
wire_authorization_example = wire_authorization (λ t. t) (Http.get_me "t1") me_call refl refl
