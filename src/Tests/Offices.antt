-- ===== src/Tests/Offices.antt =====
-- Admin/Palette and Admin/Orders at concrete inputs.
use openmarket.Prelude.{
  ℕ, ◌≡◌, ◌≤◌, ◌⊎◌, refl, true, false, none, some, [], ◌∷◌, ◌+◌, codes, trim, is_filled, text_eq,
  ◌==◌, if◌then◌else◌,
}
use openmarket.Shared.Types.{OrderListItem, Customer}
use openmarket.Shared.Machine.{Run, Reach, here, more, act, reply, Reply, done, failed}
use openmarket.Shared.Machine.Flight.{count, flag}
use openmarket.Admin.Palette.Rows.{rows}
use openmarket.Admin.Palette.Sections.{numbered, shown, shown-rows}
use openmarket.Admin.Palette.State as PaletteState
use openmarket.Admin.Palette.Effects as Palette
use openmarket.Admin.Palette.Sound.{closed, replied_if_fresh}
use openmarket.Admin.Orders.Page as Orders
use openmarket.Shared.Numerals as Numerals
use openmarket.Admin.Orders.Page.{is_rejected}
use openmarket.Admin.Orders.Bulk.{first_render, is_bulk, one_bulk}
use openmarket.Shared.Machine.Waiting.{IsHeld}
use openmarket.Admin.Security as Security
use openmarket.Admin.Security.Codes.{opened, IsEnrolling, IsConfirmed, verified_after_enrolment}
use openmarket.Tests.Samples.{row}

abbrev item : ℕ → OrderListItem
item i = record {
  id = i;
  order_number = codes "ORD";
  source = codes "web";
  fulfillment_status = codes "unfulfilled";
  total_price = codes "5.00";
  created_at = [];
  customer_name = none;
  customer_email = none;
}

abbrev ann : Customer
ann = record {
  id = 2;
  email = none;
  first_name = codes "Ann";
  last_name = [];
  phone = codes "12";
  addresses = [];
}

shown-rows_example :
    shown (rows (row ∷ []) (item 4 ∷ item 5 ∷ []) (ann ∷ []))
    ≡ numbered 0 (rows (row ∷ []) (item 4 ∷ item 5 ∷ []) (ann ∷ []))
shown-rows_example = shown-rows (row ∷ []) (item 4 ∷ item 5 ∷ []) (ann ∷ [])

-- The palette is opened, and a text is typed and settles.
abbrev searching : Run Palette.palette
searching = record {
  state =
      (Palette.react Palette.settled
        (Palette.react (Palette.typed (codes "milk "))
          (Palette.react Palette.toggled PaletteState.initial).0).0).0;
  waiting = PaletteState.search 0 (codes "milk") ∷ [];
}

searching_run : Reach Palette.palette closed searching
unfolding PaletteState.initial Palette.react Palette.is_offered PaletteState.set_open
    PaletteState.start_search PaletteState.clamp PaletteState.reset is_filled text_eq
searching_run =
    more
      (more (more here (act Palette.toggled refl refl))
        (act (Palette.typed (codes "milk ")) refl refl))
      (act Palette.settled refl refl)

abbrev found : PaletteState.Found
found = record { products = done []; orders = failed []; customers = done (ann ∷ []) }

replied_if_fresh_example :
    (Palette.replied (PaletteState.search 0 (codes "milk")) found searching.state ≡ searching.state)
    ⊎ ((searching.state.open_now ≡ true) × (codes "milk" ≡ trim searching.state.debounced))
replied_if_fresh_example = replied_if_fresh searching_run [] [] 0 (codes "milk") found refl

abbrev listed : Orders.State
listed = record (Orders.start []).0 { orders = item 4 ∷ item 5 ∷ []; loading = false }

abbrev busy : Run Orders.page
busy = record {
  state = (Orders.react Orders.bulk_confirmed (Orders.react Orders.bulk_clicked listed).0).0;
  waiting = Orders.create_all (4 ∷ 5 ∷ []) (Orders.query_of listed) ∷ [];
}

busy_run : Reach Orders.page (first_render []) busy
unfolding Orders.start Orders.load_orders Orders.query_of Orders.replied Orders.follow Orders.react
    Orders.is_offered Orders.fulfill_all_visible
busy_run =
    more
      (more
        (more here (
          reply [] [] (Orders.list (Orders.query_of (Orders.start []).0) Orders.nothing)
            (done (item 4 ∷ item 5 ∷ [])) refl refl))
        (act Orders.bulk_clicked refl refl))
      (act Orders.bulk_confirmed refl refl)

one_bulk_example :
    (count is_bulk busy.waiting ≡ flag busy.state.bulk_busy)
    × (flag busy.state.confirm_bulk + count is_bulk busy.waiting ≤ 1)
one_bulk_example = one_bulk [] busy_run

abbrev outcome : ℕ → Reply (Unit {0})
outcome i = if i == 4 then done tt else failed []

told_run : Orders.told 2 1 ≡ codes "Fulfilled 1, failed 1"
unfolding Orders.told Numerals.print Numerals.digits_from
told_run = refl

-- The enrolment succeeds, and a code is sent.
abbrev confirming : Run Security.page
confirming = record {
  state = record {
    phase = Security.enrolled;
    secret = some (codes "S");
    uri = some (codes "otpauth");
    code = codes "123456";
    error = none;
  };
  waiting = Security.verify (codes "123456") ∷ [];
}

confirming_run : Reach Security.page opened confirming
unfolding Security.is_offered Security.react Security.replied
confirming_run =
    more
      (more
        (more (more here (act Security.start_enroll refl refl))
          (reply [] [] Security.enroll (done (codes "S", codes "otpauth")) refl refl))
        (act (Security.typed (codes "123456")) refl refl))
      (act Security.submitted refl refl)

verified_after_enrolment_example : IsHeld Security.page IsEnrolling IsConfirmed confirming
verified_after_enrolment_example = verified_after_enrolment confirming_run
