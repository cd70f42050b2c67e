-- ===== src/AdminWeb/Csv.antt =====
-- The CSV texts that the administrators' views save.
pub mod Reader
pub mod Exports
use Prim.Native.Char.{code}
use infinite_image_hosting.Prelude.{String, ◌<>◌, ◌==◌, if◌then◌else◌, List, map}
use infinite_image_hosting.AdminWeb.Text.{join}

-- `text.replaceAll("\"", "\"\"")`
unfoldable pub double_quotes : String → String
double_quotes String.[] = String.[]
double_quotes (String.◌∷◌ c s) =
    let rest = double_quotes s in
    if code c == b'"' then String.◌∷◌ c (String.◌∷◌ c rest) else String.◌∷◌ c rest

unfoldable pub encode_cell : String → String
unfolding double_quotes
encode_cell cell = "\"" <> (double_quotes cell <> "\"")

-- `rows.map((row) => row.map(…).join(",")).join("\n")`
unfoldable pub encode_csv : List (List String) → String
unfolding encode_cell join
encode_csv rows = join "\n" (map (λ (row : List String). join "," (map encode_cell row)) rows)
