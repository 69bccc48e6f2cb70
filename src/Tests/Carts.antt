-- ===== src/Tests/Carts.antt =====
-- Store/Cart at concrete carts.
use openmarket.Prelude.{◌≡◌, refl, true, false, none, some, List, [], ◌∷◌, ◌++◌, pos, Option, Bool}
use openmarket.Shared.Types.{CartItem}
use openmarket.Store.Cart.{CartOp, add, update, apply, apply_all, total}
use openmarket.Store.Cart.Validity.{IsValid, nil-IsValid, apply_all-IsValid}
use openmarket.Store.Cart.Quantities.{pieces, spec_all, apply_all-spec}
use openmarket.Store.Cart.Storage.{
  Json, IsFaithful, load_cart, mount, run, operations, IsPast, load_cart-run,
}
use openmarket.Tests.Samples.{bread, milk, product, cart}
use openmarket.Tests.Whole.{Whole, whole}

abbrev ops : List CartOp
ops = add product bread ∷ add product milk ∷ add product bread ∷ []

ops_run : apply_all ops [] ≡ cart
unfolding apply_all apply
ops_run = refl

total_run : total {N = Whole} cart ≡ Option.some 8
unfolding total
total_run = refl

update_run :
    apply_all (update 7 (pos 0) ∷ update 9 (pos 5) ∷ update 8 (pos 4) ∷ []) cart
    ≡ apply_all (add product milk ∷ update 9 (pos 5) ∷ []) []
unfolding apply_all apply
update_run = refl

apply_all-IsValid_example : IsValid (apply_all ops [])
apply_all-IsValid_example = apply_all-IsValid ops [] nil-IsValid

apply_all-spec_example : pieces (apply_all ops []) ≡ spec_all ops (pieces [])
apply_all-spec_example = apply_all-spec ops [] nil-IsValid

-- JSON whose texts are the carts themselves.
abbrev plain : Json
plain = record {
  Raw = List CartItem;
  is_blank = λ raw. false;
  stringify = λ items. items;
  parse = λ raw. some raw;
}

plain-IsFaithful : IsFaithful plain
plain-IsFaithful = record { parsed = λ items. refl; printed = λ items. refl }

abbrev tapped : List (CartOp × Bool)
tapped = (add product bread, false) ∷ (add product milk, true) ∷ []

load_cart-run_example :
    IsPast tapped [] (load_cart plain (run plain tapped (mount plain true none)).stored)
    × (load_cart plain
          (run plain (tapped ++ (update 9 (pos 5), true) ∷ []) (mount plain true none)).stored
        ≡ apply_all (operations tapped ++ update 9 (pos 5) ∷ []) [])
unfolding load_cart
load_cart-run_example = load_cart-run plain plain-IsFaithful true none tapped (update 9 (pos 5))
