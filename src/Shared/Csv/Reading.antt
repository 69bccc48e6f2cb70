-- ===== src/Shared/Csv/Reading.antt =====
-- A reader of the files that RFC 4180 describes, which takes also a line feed without the carriage return
-- before it for the end of a row, and the proof that it reads what exportCsv.ts writes.
use mathlib.Core.List.{append-nil, append_assoc}
use openmarket.Prelude.{
  ◌≡◌, refl, sym, ap, ◌∙◌, false, Option, none, some, List, [], ◌∷◌, ◌++◌, map, Text, ◌==◌,
  if◌then◌else◌, is_empty, All, Bool-cases, inl, inr, arith,
}
use openmarket.Shared.Csv.{double_quotes, escape, join, csv_line, csv}

-- Where the reader stands: before a field, in a bare or a quoted one, or behind a quote in a quoted
-- one, which ends the field or stands before a second quote.
pub data Mode : Type 0 where
  fresh bare quoted closing : Mode

-- The field, the row and the table read so far, and the text to read. The last row may end the text or
-- have a line break behind it.
unfoldable pub read : Mode → Text → List Text → List (List Text) → Text → List (List Text)
read fresh [] [] table [] = table
read m field row table [] = table ++ (row ++ field ∷ []) ∷ []
read quoted field row table (c ∷ s) =
    let close = read closing field row table s in
    let go_on = read quoted (field ++ c ∷ []) row table s in if c == b'"' then close else go_on
read m field row table (c ∷ s) =
    let next_field = read fresh [] (row ++ field ∷ []) table s in
    let next_row = read fresh [] [] (table ++ (row ++ field ∷ []) ∷ []) s in
    let open_quote = read quoted [] row table s in
    let double = read quoted (field ++ c ∷ []) row table s in
    let go_on = read bare (field ++ c ∷ []) row table s in
    let skip = read m field row table s in
    if c == b','
    then next_field
    else if c == 10
    then next_row
    else if c == 13
    then skip
    else elim m [
      | fresh ↦ if c == b'"' then open_quote else go_on
      | bare ↦ go_on
      | quoted ↦ go_on
      | closing ↦ if c == b'"' then double else go_on
    ]

unfoldable pub read_csv : Text → List (List Text)
unfolding read
read_csv s = read fresh [] [] [] s

read-double_quotes :
    (v field : Text) (row : List Text) (table : List (List Text)) (rest : Text)
    → read quoted field row table (double_quotes v ++ b'"' ∷ rest)
      ≡ read closing (field ++ v) row table rest
unfolding read double_quotes
read-double_quotes [] field row table rest =
    ap (λ f. read closing f row table rest) (sym (append-nil field))
read-double_quotes (c ∷ v) field row table rest = elim (Bool-cases (c == b'"')) [
  | inl q ↦
      let e : c ≡ b'"' = ground (arith, q) in
      rw e (
        read-double_quotes v (field ++ b'"' ∷ []) row table rest
        ∙ ap (λ f. read closing f row table rest) (append_assoc field (b'"' ∷ []) v))
  | inr q ↦
      rw (q, q)
        (read-double_quotes v (field ++ c ∷ []) row table rest
          ∙ ap (λ f. read closing f row table rest) (append_assoc field (c ∷ []) v))
]

read-escape :
    (v : Text) (row : List Text) (table : List (List Text)) (rest : Text)
    → read fresh [] row table (escape v ++ rest) ≡ read closing v row table rest
unfolding read escape
read-escape v row table rest =
    ap (λ s. read quoted [] row table s) (append_assoc (double_quotes v) (b'"' ∷ []) rest)
    ∙ read-double_quotes v [] row table rest

-- What follows a row: nothing, or the end of a line and more rows.
abbrev rest_of : Option Text → Text
rest_of none = []
rest_of (some s) = 10 ∷ s

abbrev read_rest : List (List Text) → Option Text → List (List Text)
unfolding read
read_rest table none = table
read_rest table (some s) = read fresh [] [] table s

read-row_end :
    (v : Text) (row : List Text) (table : List (List Text)) (rest : Option Text)
    → read closing v row table (rest_of rest) ≡ read_rest (table ++ (row ++ v ∷ []) ∷ []) rest
unfolding read
read-row_end v row table none = refl
read-row_end v row table (some s) = refl

read-comma :
    (v : Text) (row : List Text) (table : List (List Text)) (s : Text)
    → read closing v row table (b',' ∷ s) ≡ read fresh [] (row ++ v ∷ []) table s
unfolding read
read-comma v row table s = refl

read-csv_line :
    (v : Text) (vs row : List Text) (table : List (List Text)) (rest : Option Text)
    → read fresh [] row table (csv_line (v ∷ vs) ++ rest_of rest)
      ≡ read_rest (table ++ (row ++ v ∷ vs) ∷ []) rest
unfolding csv_line join
read-csv_line v [] row table rest =
    read-escape v row table (rest_of rest) ∙ read-row_end v row table rest
read-csv_line v (w ∷ vs) row table rest =
    ap (read fresh [] row table) (append_assoc (escape v) (b',' ∷ csv_line (w ∷ vs)) (rest_of rest))
    ∙ read-escape v row table (b',' ∷ (csv_line (w ∷ vs) ++ rest_of rest))
    ∙ read-comma v row table (csv_line (w ∷ vs) ++ rest_of rest)
    ∙ read-csv_line w vs (row ++ v ∷ []) table rest
    ∙ ap (λ r. read_rest (table ++ r ∷ []) rest) (append_assoc row (v ∷ []) (w ∷ vs))

-- Rows that have cells.
abbrev pub HasCells : List Text → Type 0
HasCells row = is_empty row ≡ false

read-rows :
    (row : List Text) (rows table : List (List Text))
    → All HasCells (row ∷ rows)
    → read fresh [] [] table (join 10 (map csv_line (row ∷ rows))) ≡ table ++ row ∷ rows
unfolding join read_rest
read-rows [] rows table (h, hs) = ground (arith, h)
read-rows (v ∷ vs) [] table h =
    ap (read fresh [] [] table) (sym (append-nil (csv_line (v ∷ vs))))
    ∙ read-csv_line v vs [] table none
read-rows (v ∷ vs) (row ∷ rows) table (h, hs) =
    read-csv_line v vs [] table (some (join 10 (map csv_line (row ∷ rows))))
    ∙ read-rows row rows (table ++ (v ∷ vs) ∷ []) hs
    ∙ append_assoc table ((v ∷ vs) ∷ []) (row ∷ rows)

-- A reader of RFC 4180 that also ends rows at a line feed alone reads back exactly the header and the
-- rows that were exported, whatever characters their cells have, quotes, commas and line breaks
-- included; each row must have a cell.
pub read_csv-csv :
    (headers : List Text) (rows : List (List Text))
    → All HasCells (headers ∷ rows)
    → read_csv (csv headers rows) ≡ headers ∷ rows
unfolding read_csv csv
read_csv-csv headers rows h = read-rows headers rows [] h
