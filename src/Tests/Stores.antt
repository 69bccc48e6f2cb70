-- ===== src/Tests/Stores.antt =====
-- Store/Product and Store/Shop at concrete products.
use openmarket.Prelude.{
  ℕ, ◌≡◌, refl, false, not, none, some, List, [], ◌∷◌, ◌++◌, ◌+◌, codes, if◌then◌else◌, ◌==◌, find,
  text_eq,
}
use openmarket.Shared.Types.{Customer, Product, ProductVariant}
use openmarket.Shared.Machine.{Run, Reach, here, more, act, reply, done}
use openmarket.Store.Cart.Validity.{IsValid, nil-IsValid}
use openmarket.Store.Cart.Quantities.{pieces}
use openmarket.Store.Product.Page as Page
use openmarket.Store.Product.Choice.{IsChosen, Reach-IsChosen, added_lem}
use openmarket.Store.Product.Choice as Choice
use openmarket.Store.Shop.Page as Shop
use openmarket.Store.Shop.Types as Types
use openmarket.Store.Shop.Pending.{Quiet}
use openmarket.Store.Shop.Adding as Adding
use openmarket.Store.Shop.Adding.{quick_added, brought}
use openmarket.Tests.Samples.{bread, milk, product, row}

abbrev stocked : ℕ → ProductVariant → ProductVariant
stocked i v = record v { inventory_item_id = some i; available = some 4 }

abbrev variants : List ProductVariant
variants = stocked 3 bread ∷ stocked 5 milk ∷ []

abbrev event : Page.InventoryEvent
event = record { inventory_item_id = 5; location_id = 1; available = 0 }

restock_run :
    Page.restock event variants
    ≡ stocked 3 bread ∷ record (stocked 5 milk) { available = some 0 } ∷ []
unfolding Page.restock
restock_run = refl

abbrev food : Product
food = record product { variants = variants }

abbrev loaded : Run Page.page
loaded = record {
  state =
      (Page.react (Page.selected 9)
        (Page.replied (Page.get 1) (done food) (Page.start (some 1) []).0)).0;
  waiting = [];
}

-- The product comes, and the second variant is chosen.
loaded_run : Reach Page.page (Choice.first_render (some 1) []) loaded
unfolding Page.start Page.initial Page.load Page.replied Page.react Page.is_offered
loaded_run =
    more (more here (reply [] [] (Page.get 1) (done food) refl refl))
      (act (Page.selected 9) refl refl)

added_lem_example :
    (v : ProductVariant) × (find
        (λ w. Page.is_id loaded.state.selected_variant_id w.id)
        food.variants
      ≡ some v)
    × (Page.is_offered Page.added loaded.state ≡ not (Page.is_zero v.available))
    × (Page.is_zero v.available ≡ false
        → (j : ℕ)
        → pieces (Page.react Page.added loaded.state).0.cart j
          ≡ (if v.id == j then pieces loaded.state.cart j + 1 else pieces loaded.state.cart j))
unfolding Page.start Page.initial Page.load Page.replied Page.react
added_lem_example = added_lem (some 1) [] nil-IsValid loaded_run food refl refl refl

abbrev shown : Shop.State
shown = record (Shop.initial []) { products = row ∷ []; loading = false }

abbrev quiet : Shop.State
quiet =
    (Shop.react (Shop.chosen (some (codes "dairy"))) (Shop.react Shop.inventory_updated shown).0).0

abbrev asked : List Shop.Request
asked =
    (Shop.react (Shop.chosen (some (codes "dairy"))) (Shop.react Shop.inventory_updated shown).0).1

-- Between the update and the timer a type is chosen.
quiet_run : Quiet (Shop.react Shop.inventory_updated shown).0 quiet ([] ++ asked)
unfolding Shop.initial Shop.react Shop.is_offered Shop.is_enabled Shop.handle_inventory_update
    Types.product_types Types.distinct Types.sort Types.insert text_eq
quiet_run = Quiet.act Quiet.still (Shop.chosen (some (codes "dairy"))) refl refl

abbrev adding : Run Shop.shop
adding = record {
  state =
      (Shop.react (Shop.quick_add row) (
        Shop.replied (Shop.list (Shop.query_of (Shop.initial []))) (done (row ∷ []))
          (Shop.start []).0)).0;
  waiting = Shop.get 1 ∷ [];
}

adding_run : Reach Shop.shop (Adding.first_render []) adding
unfolding Shop.initial Shop.start Shop.load Shop.query_of Shop.replied Shop.react
    Shop.start_quick_add Shop.is_offered Shop.is_enabled
adding_run =
    more
      (more here
        (reply [] [] (Shop.list (Shop.query_of (Shop.initial []))) (done (row ∷ [])) refl refl))
      (act (Shop.quick_add row) refl refl)

quick_added_example :
    IsValid adding.state.cart
    × ((e : Shop.Event) → (Shop.react e adding.state).0.cart ≡ adding.state.cart)
    × ((r : Shop.Request) (a : Shop.Answer r) (j : ℕ)
        → pieces (Shop.replied r a adding.state).cart j
          ≡ pieces adding.state.cart j + brought r a j)
quick_added_example = quick_added [] nil-IsValid adding_run

abbrev eve : Customer
eve = record {
  id = 2;
  email = none;
  first_name = codes "Eve";
  last_name = [];
  phone = codes "12";
  addresses = [];
}
