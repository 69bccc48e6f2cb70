-- ===== src/Shared/Csv.antt =====
-- frontend/packages/shared/src/exportCsv.ts: the text of the file that is downloaded.
pub mod Reading
use openmarket.Prelude.{ℕ, List, [], ◌∷◌, ◌++◌, map, Text, ◌==◌, if◌then◌else◌}

-- `val.replace(/"/g, '""')`.
unfoldable pub double_quotes : Text → Text
double_quotes [] = []
double_quotes (c ∷ s) = let r = double_quotes s in if c == b'"' then c ∷ c ∷ r else c ∷ r

unfoldable pub escape : Text → Text
unfolding double_quotes
escape val = b'"' ∷ (double_quotes val ++ b'"' ∷ [])

-- `parts.join(separator)`, for a separator of one character.
unfoldable pub join : ℕ → List Text → Text
join sep [] = []
join sep (x ∷ []) = x
join sep (x ∷ y ∷ xs) = x ++ sep ∷ join sep (y ∷ xs)

unfoldable pub csv_line : List Text → Text
unfolding escape join
csv_line row = join b',' (map escape row)

unfoldable pub csv : List Text → List (List Text) → Text
unfolding csv_line join
csv headers rows = join 10 (map csv_line (headers ∷ rows))
