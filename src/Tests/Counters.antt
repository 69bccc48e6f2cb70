-- ===== src/Tests/Counters.antt =====
-- The keypads and the return modal at concrete states.
use openmarket.Prelude.{
  ℕ, ◌≡◌, refl, true, false, none, some, List, [], ◌∷◌, codes, lt, pos, All, is_filled, trim,
  trim_start, trim_end, is_space,
}
use openmarket.Shared.Machine.{Run, Reach, act, reply, here, more}
use openmarket.Pos.Keypads.Weight as Weight
use openmarket.Pos.Keypads.Weight.{
  digit, point, back, Key, IsEntry, on_keys, on_keys-IsEntry, confirm_in_range,
}
use openmarket.Pos.Keypads.Pin as Pin
use openmarket.Pos.Keypads.Pin.{IsSafe, Reach-IsSafe, login_sent}
use openmarket.Pos.Returns as Returns
use openmarket.Pos.Returns.{ReturnItem}
use openmarket.Pos.Returns.Bounds.{modal, IsPart, return_within_order}
use openmarket.Tests.Samples.{order}
use openmarket.Tests.Whole.{Whole, whole, whole-IsIeee}

abbrev keys : List Key
keys = digit 1 ∷ point ∷ digit 2 ∷ point ∷ back ∷ digit 5 ∷ []

keys_run : on_keys keys [] ≡ codes "1.5"
unfolding on_keys Weight.on_key
keys_run = refl

confirm_in_range_example :
    (Weight.can_confirm Whole (some (codes "1")) none (codes "3") ≡ true
      → (Weight.confirm Whole (some (codes "1")) none (codes "3")
          ≡ some (Weight.qty Whole (codes "3")))
        × (lt (some 0) (Weight.qty Whole (codes "3")) ≡ true))
    × ((x : Whole)
        → Weight.confirm Whole (some (codes "1")) none (codes "3") ≡ some x
        → (Weight.is_below Whole x (some (some 1)) ≡ false)
          × (Weight.is_above Whole x none ≡ false))
confirm_in_range_example = confirm_in_range Whole whole-IsIeee (some (codes "1")) none (codes "3")

abbrev ann : Pin.Cashier
ann = record { user_id = 3; full_name = codes "Ann" }

abbrev chosen : Pin.State
chosen = record {
  cashiers = ann ∷ [];
  selected = some ann;
  pin = codes "12";
  error = none;
  successes = 0;
}

abbrev pin_start : Run Pin.login
pin_start = record { state = chosen; waiting = [] }

abbrev pin_typed : Run Pin.login
pin_typed = record { state = record chosen { pin = codes "124" }; waiting = [] }

pin_run : Reach Pin.login pin_start pin_typed
unfolding Pin.is_offered Pin.react
pin_run = more here (act (Pin.digit 4) refl refl)

abbrev opened : Run (modal Whole)
opened = record { state = Returns.initial Whole; waiting = [] }

abbrev shown : Returns.State Whole
shown = record {
  stage = Returns.Stage.select;
  order_number = codes "7";
  order = some order;
  return_qty = Returns.zeros order.line_items;
  reason = [];
  loading = false;
  error = [];
  refund_amount = some 0;
  closed = false;
}

-- Nine pieces are asked for, of a line of two.
abbrev counted : Run (modal Whole)
counted = record {
  state = record shown { return_qty = Returns.update_qty order 1 (pos 9) shown.return_qty };
  waiting = [];
}

return_run : Reach (modal Whole) opened counted
unfolding Returns.initial Returns.is_offered Returns.react Returns.replied is_filled trim trim_start
    trim_end is_space
return_run =
    more
      (more
        (more (more here (act (Returns.number_typed (codes "7")) refl refl))
          (act Returns.looked_up refl refl))
        (reply [] [] (Returns.lookup_order (codes "7")) (Returns.done order) refl refl))
      (act (Returns.quantity_set 1 (pos 9)) refl refl)

abbrev two : List ReturnItem
two = record { line_item_id = 1; quantity = 2 } ∷ []

return_within_order_example : (◌≡◌ {A = ℕ} 40 order.id) × All (IsPart order.line_items) two
unfolding Returns.react Returns.return_items Returns.update_qty Returns.zeros
return_within_order_example = return_within_order Whole order return_run refl two 40 [] refl
