-- ===== src/Shared/Api/Address.antt =====
-- api.ts: the addresses that the calls ask for, as a server reads them.
use Prim.Native.String.{String}
use openmarket.Prelude.{ℕ, ◌≡◌, refl, List, [], ◌∷◌, ◌++◌, map, any, false, All, ◌==◌, Text, codes}
use openmarket.Shared.Uri.{encode}
use openmarket.Shared.Api.{Params, set_entries, qs}
use openmarket.Shared.Api.Escapes.{bytes, decode, decode_at, IsChar, Lacks, Lacks_of_any}
use openmarket.Shared.Api.Query.{
  IsEntry, in_bytes, set_entries-IsPair, read_address, read_address-after_mark, read_address-encode,
}
use openmarket.Shared.Api.Goods as Goods
use openmarket.Shared.Api.Staff as Staff

-- A literal without a sign.
plain : (d : ℕ) (s : String) → any (λ c. c == d) (codes s) ≡ false → Lacks d (codes s)
plain d s h = Lacks_of_any d (codes s) h

looked_up :
    (base k : String) (t : Text)
    → any (λ c. c == b'?') (codes base) ≡ false
    → any (λ c. c == b'&') (codes k) ≡ false
    → any (λ c. c == b'=') (codes k) ≡ false
    → All IsChar t
    → read_address (codes base ++ b'?' ∷ (codes k ++ b'=' ∷ encode t))
      ≡ (decode (codes k), bytes t) ∷ []
looked_up base k t l m o h =
    read_address-encode (codes base) (codes k) t (plain b'?' base l) (plain b'&' k m)
      (plain b'=' k o) h

module _ (B : Type 0) where
  abbrev pub goods_path : Goods.Call B → Text
  goods_path c = (Goods.send c).path

  abbrev pub staff_path : Staff.Call B → Text
  staff_path c = (Staff.send c).path

  -- One text under its key.
  abbrev pub only : String → Text → List (List ℕ × List ℕ)
  only k t = (codes k, bytes t) ∷ []

  lists_read :
      (ps : Params)
      → All IsEntry ps
      → (read_address (goods_path (Goods.products_list ps)) ≡ map in_bytes (set_entries ps))
        × (read_address (goods_path (Goods.orders_list ps)) ≡ map in_bytes (set_entries ps))
        × (read_address (staff_path (Staff.customers_list ps)) ≡ map in_bytes (set_entries ps))
        × (read_address (staff_path (Staff.customers_lookup ps)) ≡ map in_bytes (set_entries ps))
  unfolding Goods.send Staff.send qs
  lists_read ps h =
      let all = set_entries-IsPair ps h in
      (
        read_address-after_mark (codes "/products") (set_entries ps) (plain b'?' "/products" refl)
            all,
        read_address-after_mark (codes "/orders") (set_entries ps) (plain b'?' "/orders" refl) all,
        read_address-after_mark (codes "/customers") (set_entries ps) (plain b'?' "/customers" refl)
            all,
        read_address-after_mark (codes "/customers/lookup") (set_entries ps)
            (plain b'?' "/customers/lookup" refl) all,
      )

  lookups_read :
      (t : Text)
      → All IsChar t
      → (read_address (goods_path (Goods.variants_lookup t)) ≡ only "barcode" t)
        × (read_address (goods_path (Goods.orders_lookup t)) ≡ only "order_number" t)
        × (read_address (goods_path (Goods.discounts_lookup t)) ≡ only "code" t)
  unfolding Goods.send decode decode_at
  lookups_read t h = (
    looked_up "/variants/lookup" "barcode" t refl refl refl h,
    looked_up "/orders/lookup" "order_number" t refl refl refl h,
    looked_up "/discounts/lookup" "code" t refl refl refl h,
  )

  -- A server that takes the query of an address from its first `?`, splits it at `&` and each part at its
  -- first `=`, and takes back the escapes and the `+` for a blank, reads from the address of a list of
  -- products, orders or customers, and of the lookup of a customer, exactly the entries of the parameters
  -- that are set and not "", in their order; and from the lookup of a variant, an order or a discount
  -- exactly the text under its key: all in UTF-8, for texts of Unicode characters.
  pub addresses_read :
      (ps : Params) (t : Text)
      → All IsEntry ps
      → All IsChar t
      → (read_address (goods_path (Goods.products_list ps)) ≡ map in_bytes (set_entries ps))
        × (read_address (goods_path (Goods.orders_list ps)) ≡ map in_bytes (set_entries ps))
        × (read_address (staff_path (Staff.customers_list ps)) ≡ map in_bytes (set_entries ps))
        × (read_address (staff_path (Staff.customers_lookup ps)) ≡ map in_bytes (set_entries ps))
        × (read_address (goods_path (Goods.variants_lookup t)) ≡ only "barcode" t)
        × (read_address (goods_path (Goods.orders_lookup t)) ≡ only "order_number" t)
        × (read_address (goods_path (Goods.discounts_lookup t)) ≡ only "code" t)
  addresses_read ps t h k =
      let (a, b, c, d) = lists_read ps h in
      let (e, f, g) = lookups_read t k in (a, b, c, d, e, f, g)
