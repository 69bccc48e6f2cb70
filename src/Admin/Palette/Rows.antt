-- ===== src/Admin/Palette/Rows.antt =====
-- CommandPalette.tsx: the rows that are made of what the searches found.
use openmarket.Prelude.{
  ℕ, Option, none, some, List, [], ◌∷◌, ◌++◌, map, if◌then◌else◌, is_empty, or_else, trim, Text,
  codes,
}
use openmarket.Shared.Types.{ProductListWithPrice, OrderListItem, Customer}
use openmarket.Shared.Uri.{encode}
use openmarket.Shared.Numerals.{print}

pub data Kind : Type 0 where
  product order customer : Kind

pub record Row : Type 0 where
  pub kind : Kind
  pub id : ℕ
  pub title : Text
  pub subtitle : Option Text
  pub href : Text

-- `a || b` on texts, and `text || undefined`.
abbrev pub or_text : Text → Text → Text
or_text [] t = t
or_text (c ∷ s) t = c ∷ s

abbrev pub or_undefined : Text → Option Text
or_undefined [] = none
or_undefined (c ∷ s) = some (c ∷ s)

-- `parts.filter(Boolean).join(" · ")`.
unfoldable pub dotted : List Text → Text
dotted [] = []
dotted ([] ∷ ts) = dotted ts
dotted ((c ∷ s) ∷ ts) =
    let rest = dotted ts in if is_empty rest then c ∷ s else (c ∷ s) ++ (codes " · " ++ rest)

unfoldable pub product_row : ProductListWithPrice → Row
product_row p = record {
  kind = product;
  id = p.id;
  title = p.title;
  subtitle = or_undefined p.product_type;
  href = codes "/products?q=" ++ encode p.title;
}

unfoldable pub order_row : OrderListItem → Row
order_row o = record {
  kind = order;
  id = o.id;
  title = o.order_number;
  subtitle = some (
      dotted
        (or_else o.customer_name [] ∷ (codes "$" ++ o.total_price) ∷ o.fulfillment_status ∷ []));
  href = codes "/orders?q=" ++ encode o.order_number;
}

abbrev pub full_name : Customer → Text
full_name c = trim (c.first_name ++ (codes " " ++ c.last_name))

-- What the customers' page is asked to search for.
abbrev pub search_text : Customer → Text
search_text c = or_text (full_name c) (or_text c.phone (or_else c.email []))

unfoldable pub customer_row : Customer → Row
customer_row c = record {
  kind = customer;
  id = c.id;
  title =
      or_text (full_name c)
        (or_text c.phone (or_text (or_else c.email []) (codes "Customer #" ++ print c.id)));
  subtitle = or_undefined (dotted (c.phone ∷ or_else c.email [] ∷ []));
  href =
      codes "/customers"
      ++ (if is_empty (search_text c) then [] else codes "?q=" ++ encode (search_text c));
}

-- The flat list of rows.
unfoldable pub rows : List ProductListWithPrice → List OrderListItem → List Customer → List Row
unfolding product_row order_row customer_row
rows ps os cs = map product_row ps ++ (map order_row os ++ map customer_row cs)
