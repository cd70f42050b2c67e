-- ===== src/AdminWeb/Csv/Reader.antt =====
-- The CSV texts that the console saves, read back by the rules of RFC 4180 for quoted cells.
use Prim.Native.Char.{Char, code}
use Prim.Native.String.append
use text.Mathlib.TextLemmas.{append_assoc, append-nil}
use infinite_image_hosting.Prelude.{
  String, ◌<>◌, ◌==◌, ◌≡◌, refl, sym, ap, ◌∙◌, if◌then◌else◌, true, false, Bool-cases, inl, inr,
  List, [], ◌∷◌, map,
}
use infinite_image_hosting.AdminWeb.Text.{join}
use infinite_image_hosting.AdminWeb.Csv.{double_quotes, encode_cell, encode_csv}

-- Where the reader stands: before a cell, in one, or behind a quote in one.
pub data Place : Type 0 where
  before inside behind : Place

abbrev push : String → List (List String) → List (List String)
push text [] = []
push text ([] ∷ rows) = [] ∷ rows
push text ((cell ∷ row) ∷ rows) = ((text <> cell) ∷ row) ∷ rows

abbrev new_cell : List (List String) → List (List String)
new_cell [] = []
new_cell (row ∷ rows) = ("" ∷ row) ∷ rows

-- The rows of a text; a text in which a cell is not quoted, or is not closed, is cut off there.
unfoldable pub read_csv : Place → String → List (List String)
read_csv behind String.[] = ("" ∷ []) ∷ []
read_csv before String.[] = []
read_csv inside String.[] = []
read_csv before (String.◌∷◌ c s) =
    let rest = read_csv inside s in if code c == b'"' then rest else []
read_csv inside (String.◌∷◌ c s) =
    let closed = read_csv behind s in
    let rest = push (String.◌∷◌ c String.[]) (read_csv inside s) in
    if code c == b'"' then closed else rest
read_csv behind (String.◌∷◌ c s) =
    let again = push (String.◌∷◌ c String.[]) (read_csv inside s) in
    let next = read_csv before s in
    if code c == b'"'
    then again
    else if code c == b','
    then new_cell next
    else if code c == 10
    then ("" ∷ []) ∷ next
    else []

push-push :
    (c : Char) (s : String) (rows : List (List String))
    → push (String.◌∷◌ c String.[]) (push s rows) ≡ push (String.◌∷◌ c s) rows
push-push c s [] = refl
push-push c s ([] ∷ rows) = refl
push-push c s ((cell ∷ row) ∷ rows) =
    ap (λ (t : String). (t ∷ row) ∷ rows)
      (append.cons c String.[] (s <> cell)
        ∙ ap (λ (t : String). String.◌∷◌ c t) (append.nil (s <> cell))
        ∙ sym (append.cons c s cell))

push-nil : (rows : List (List String)) → push "" rows ≡ rows
push-nil [] = refl
push-nil ([] ∷ rows) = refl
push-nil ((cell ∷ row) ∷ rows) = ap (λ (t : String). (t ∷ row) ∷ rows) (append.nil cell)

inside-other :
    (c : Char) (s : String)
    → (code c == b'"') ≡ false
    → read_csv inside (String.◌∷◌ c s) ≡ push (String.◌∷◌ c String.[]) (read_csv inside s)
unfolding read_csv
inside-other c s other = rw other refl

inside-doubled :
    (c : Char) (s : String)
    → (code c == b'"') ≡ true
    → read_csv inside (String.◌∷◌ c (String.◌∷◌ c s))
      ≡ push (String.◌∷◌ c String.[]) (read_csv inside s)
unfolding read_csv
inside-doubled c s quote = rw quote refl

doubled-append :
    (c : Char) (s rest : String)
    → (code c == b'"') ≡ true
    → double_quotes (String.◌∷◌ c s) <> rest ≡ String.◌∷◌ c (String.◌∷◌ c (double_quotes s <> rest))
unfolding double_quotes
doubled-append c s rest quote = rw quote (
    append.cons c (String.◌∷◌ c (double_quotes s)) rest
    ∙ ap (λ (t : String). String.◌∷◌ c t) (append.cons c (double_quotes s) rest))

single-append :
    (c : Char) (s rest : String)
    → (code c == b'"') ≡ false
    → double_quotes (String.◌∷◌ c s) <> rest ≡ String.◌∷◌ c (double_quotes s <> rest)
unfolding double_quotes
single-append c s rest other = rw other (append.cons c (double_quotes s) rest)

empty-append : (rest : String) → double_quotes "" <> rest ≡ rest
unfolding double_quotes
empty-append rest = append.nil rest

-- In a cell, the doubled quotes of a text are read as the text.
inside-text :
    (t rest : String) → read_csv inside (double_quotes t <> rest) ≡ push t (read_csv inside rest)
inside-text String.[] rest =
    ap (read_csv inside) (empty-append rest) ∙ sym (push-nil (read_csv inside rest))
inside-text (String.◌∷◌ c s) rest =
    let ih =
      ap (push (String.◌∷◌ c String.[])) (inside-text s rest)
      ∙ push-push c s (read_csv inside rest) in
    elim (Bool-cases (code c == b'"')) [
      | inl quote ↦
          ap (read_csv inside) (doubled-append c s rest quote)
          ∙ inside-doubled c (double_quotes s <> rest) quote
          ∙ ih
      | inr other ↦
          ap (read_csv inside) (single-append c s rest other)
          ∙ inside-other c (double_quotes s <> rest) other
          ∙ ih
    ]

char-append : (c : Char) (rest : String) → String.◌∷◌ c String.[] <> rest ≡ String.◌∷◌ c rest
char-append c rest =
    append.cons c String.[] rest ∙ ap (λ (t : String). String.◌∷◌ c t) (append.nil rest)

before-quote : (rest : String) → read_csv before ("\"" <> rest) ≡ read_csv inside rest
unfolding read_csv
before-quote rest = ap (read_csv before) (char-append "\"" rest)

inside-quote : (rest : String) → read_csv inside ("\"" <> rest) ≡ read_csv behind rest
unfolding read_csv
inside-quote rest = ap (read_csv inside) (char-append "\"" rest)

behind-comma : (rest : String) → read_csv behind ("," <> rest) ≡ new_cell (read_csv before rest)
unfolding read_csv
behind-comma rest = ap (read_csv behind) (char-append "," rest)

behind-line : (rest : String) → read_csv behind ("\n" <> rest) ≡ ("" ∷ []) ∷ read_csv before rest
unfolding read_csv
behind-line rest = ap (read_csv behind) (char-append "\n" rest)

-- A cell at the start of a text.
cell-first :
    (t rest : String) → read_csv before (encode_cell t <> rest) ≡ push t (read_csv behind rest)
unfolding encode_cell
cell-first t rest =
    ap (read_csv before) (
      append_assoc "\"" (double_quotes t <> "\"") rest
      ∙ ap (λ (u : String). "\"" <> u) (append_assoc (double_quotes t) "\"" rest))
    ∙ before-quote (double_quotes t <> ("\"" <> rest))
    ∙ inside-text t ("\"" <> rest)
    ∙ ap (push t) (inside-quote rest)

-- A row whose last cell is still to be put in front of what follows.
unfoldable pub add_row : List String → List (List String) → List (List String)
add_row [] rows = rows
add_row (cell ∷ []) rows = push cell rows
add_row (cell ∷ (next ∷ row)) rows = push cell (new_cell (add_row (next ∷ row) rows))

row-first :
    (cell : String) (row : List String) (rest : String)
    → read_csv before (join "," (map encode_cell (cell ∷ row)) <> rest)
      ≡ add_row (cell ∷ row) (read_csv behind rest)
unfolding join add_row
row-first cell [] rest = cell-first cell rest
row-first cell (next ∷ row) rest =
    let more = join "," (map encode_cell (next ∷ row)) in
    ap (read_csv before) (
      append_assoc (encode_cell cell) ("," <> more) rest
      ∙ ap (λ (u : String). encode_cell cell <> u) (append_assoc "," more rest))
    ∙ cell-first cell ("," <> (more <> rest))
    ∙ ap (push cell) (behind-comma (more <> rest) ∙ ap new_cell (row-first next row rest))

add_row-line :
    (cell : String) (row : List String) (rows : List (List String))
    → add_row (cell ∷ row) (("" ∷ []) ∷ rows) ≡ (cell ∷ row) ∷ rows
unfolding add_row
add_row-line cell [] rows = ap (λ (t : String). (t ∷ []) ∷ rows) (append-nil cell)
add_row-line cell (next ∷ row) rows =
    ap (λ (u : List (List String)). push cell (new_cell u)) (add_row-line next row rows)
    ∙ ap (λ (t : String). (t ∷ (next ∷ row)) ∷ rows) (append-nil cell)

-- Rows that have cells.
abbrev pub to_rows : List (String × List String) → List (List String)
to_rows rows = map (λ (r : String × List String). r.0 ∷ r.1) rows

-- The text that is saved for one or more rows, each of one or more cells, is read back as these rows,
-- whatever characters the cells hold.
pub read_csv-encode_csv :
    (cell : String) (row : List String) (rows : List (String × List String))
    → read_csv before (encode_csv ((cell ∷ row) ∷ to_rows rows)) ≡ (cell ∷ row) ∷ to_rows rows
unfolding encode_csv join read_csv
read_csv-encode_csv cell row [] =
    ap (read_csv before) (sym (append-nil (join "," (map encode_cell (cell ∷ row)))))
    ∙ row-first cell row ""
    ∙ add_row-line cell row []
read_csv-encode_csv cell row ((next, more) ∷ rows) =
    let later = encode_csv ((next ∷ more) ∷ to_rows rows) in
    row-first cell row ("\n" <> later)
    ∙ ap (add_row (cell ∷ row)) (behind-line later)
    ∙ add_row-line cell row (read_csv before later)
    ∙ ap (λ (u : List (List String)). (cell ∷ row) ∷ u) (read_csv-encode_csv next more rows)
