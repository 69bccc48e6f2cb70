-- ===== src/Admin/Handles.antt =====
-- ProductsInventoryPage.tsx: the handle that is made of a new product's title, its part of the
-- product's address. `toLowerCase` of the host is a parameter.
use openmarket.Prelude.{
  ℕ, ◌≡◌, refl, ap, ◌∙◌, Bool, true, false, ◌&&◌, ◌||◌, [], ◌∷◌, if◌then◌else◌, filter, all, leb,
  ◌==◌, is_space, Text, arith, Bool-cases, inl, inr,
}

-- `replace(/\s+/g, "-")`: the flag says that the character before was white space.
unfoldable pub dashes : Bool → Text → Text
dashes gap [] = []
dashes gap (c ∷ s) =
    let in_gap = dashes true s in
    let go_on = dashes false s in
    if is_space c then if gap then in_gap else b'-' ∷ in_gap else c ∷ go_on

-- The characters that `replace(/[^a-z0-9-]/g, "")` keeps.
unfoldable pub is_handle_char : ℕ → Bool
is_handle_char c = (leb b'a' c && leb c b'z') || (leb b'0' c && leb c b'9') || c == b'-'

unfoldable pub handle_of : (Text → Text) → Text → Text
unfolding dashes
handle_of lower title = filter is_handle_char (dashes false (lower title))

all-filter : (s : Text) → all is_handle_char (filter is_handle_char s) ≡ true
all-filter [] = refl
all-filter (c ∷ s) = elim (Bool-cases (is_handle_char c)) [
  | inl q ↦ rw q (ground (arith, q, all-filter s))
  | inr q ↦ rw q (all-filter s)
]

filter_of_all : (s : Text) → all is_handle_char s ≡ true → filter is_handle_char s ≡ s
filter_of_all [] h = refl
filter_of_all (c ∷ s) h = ground (arith, h, filter_of_all s)

handle_char-space : (c : ℕ) → is_handle_char c ≡ true → is_space c ≡ false
unfolding is_handle_char is_space
handle_char-space c h = ground arith

dashes_of_all : (s : Text) → all is_handle_char s ≡ true → dashes false s ≡ s
unfolding dashes
dashes_of_all [] h = refl
dashes_of_all (c ∷ s) h = ground (arith, h, handle_char-space c, dashes_of_all s)

-- A handle has only lower-case letters, digits and dashes, and the handle of a handle is the handle
-- itself, if `toLowerCase` leaves texts of such characters as they are.
pub handle_of_lem :
    (lower : Text → Text) (title : Text)
    → ((s : Text) → all is_handle_char s ≡ true → lower s ≡ s)
    → let h = handle_of lower title in (all is_handle_char h ≡ true) × (handle_of lower h ≡ h)
unfolding handle_of
handle_of_lem lower title kept =
    let h = handle_of lower title in
    let a = all-filter (dashes false (lower title)) in
    (
      a,
      ap (λ s. filter is_handle_char (dashes false s)) (kept h a)
          ∙ ap (filter is_handle_char) (dashes_of_all h a)
          ∙ filter_of_all h a,
    )
