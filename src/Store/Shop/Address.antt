-- ===== src/Store/Shop/Address.antt =====
-- ShopPage.tsx: the address from which the list of products is asked for.
use Prim.Native.String.{String}
use openmarket.Prelude.{
  ℕ, ◌≡◌, refl, some, List, [], ◌∷◌, ◌++◌, map, All, or_else, Option-cases, inl, inr, ◌∙◌, Text,
  codes, arith,
}
use openmarket.Shared.Uri.{utf8}
use openmarket.Shared.Api.{Params, set_entries}
use openmarket.Shared.Api.Escapes.{bytes, IsChar}
use openmarket.Shared.Api.Query.{IsEntry, in_bytes, read_address}
use openmarket.Shared.Api.Goods as Goods
use openmarket.Shared.Api.Address.{goods_path, addresses_read}
use openmarket.Store.Shop.Page.{Query, State, query_of, or_undefined}

-- The parameters of the list.
unfoldable pub params_of : Query → Params
params_of q =
    (codes "status", some (codes "active"))
    ∷ (codes "search", q.search)
    ∷ (codes "product_type", q.product_type)
    ∷ (codes "sort_by", q.sort_by)
    ∷ []

-- The entry for a text, if it is not "".
abbrev pub entry : String → Text → List (List ℕ × List ℕ)
entry k [] = []
entry k (c ∷ t) = (codes k, bytes (c ∷ t)) ∷ []

abbrev asked : Text → Text → Text → Query
asked words type sort = record {
  search = or_undefined words;
  product_type = or_undefined type;
  sort_by = or_undefined sort;
}

entries :
    (words type sort : Text)
    → map in_bytes (set_entries (params_of (asked words type sort)))
      ≡ (codes "status", codes "active")
        ∷ (entry "search" words ++ (entry "product_type" type ++ entry "sort_by" sort))
unfolding params_of utf8
entries [] [] [] = refl
entries [] [] (c ∷ u) = refl
entries [] (c ∷ t) [] = refl
entries [] (c ∷ t) (d ∷ u) = refl
entries (c ∷ s) [] [] = refl
entries (c ∷ s) [] (d ∷ u) = refl
entries (c ∷ s) (d ∷ t) [] = refl
entries (c ∷ s) (d ∷ t) (e ∷ u) = refl

or_undefined-IsEntry :
    (k : String) (t : Text)
    → All IsChar (codes k)
    → All IsChar t
    → IsEntry (codes k, or_undefined t)
or_undefined-IsEntry k [] h j = h
or_undefined-IsEntry k (c ∷ t) h j = (h, j)

params_of-IsEntry :
    (words type sort : Text)
    → All IsChar words
    → All IsChar type
    → All IsChar sort
    → All IsEntry (params_of (asked words type sort))
unfolding params_of
params_of-IsEntry words type sort h k l =
    let own = or_undefined-IsEntry "search" words (omega arith) h in
    let kind = or_undefined-IsEntry "product_type" type (omega arith) k in
    let order = or_undefined-IsEntry "sort_by" sort (omega arith) l in
    ((omega arith, omega arith), (own, (kind, (order, tt))))

read_asked :
    (words type sort : Text)
    → All IsChar words
    → All IsChar type
    → All IsChar sort
    → read_address (goods_path ⊥ (Goods.products_list (params_of (asked words type sort))))
      ≡ (codes "status", codes "active")
        ∷ (entry "search" words ++ (entry "product_type" type ++ entry "sort_by" sort))
read_asked words type sort h k l =
    (addresses_read ⊥ (params_of (asked words type sort)) []
      (params_of-IsEntry words type sort h k l) tt).0
    ∙ entries words type sort

-- Whatever is searched, chosen and sorted by, if its texts are in Unicode, the server reads from the
-- address of the list that the status is "active", and then the debounced words, the chosen type and
-- the order, in UTF-8, each exactly if it is not "".
pub shop_asks :
    (s : State)
    → All IsChar s.debounced
    → All IsChar (or_else s.selected_type [])
    → All IsChar s.sort_by
    → read_address (goods_path ⊥ (Goods.products_list (params_of (query_of s))))
      ≡ (codes "status", codes "active")
        ∷ (entry "search" s.debounced
            ++ (entry "product_type" (or_else s.selected_type []) ++ entry "sort_by" s.sort_by))
unfolding query_of
shop_asks s h k l = elim (Option-cases s.selected_type) [
  | inl e ↦ rw e (read_asked s.debounced [] s.sort_by h tt l)
  | inr (t, e) ↦ rw e (read_asked s.debounced t s.sort_by h (rw e at k) l)
]
