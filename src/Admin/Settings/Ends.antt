-- ===== src/Admin/Settings/Ends.antt =====
-- SettingsPage.tsx: what is created to the end, and a reload that fails.
use openmarket.Prelude.{
  ◌≡◌, refl, true, false, [], ◌∷◌, ◌++◌, is_empty, Text, codes, arith, if◌then◌else◌,
}
use openmarket.Shared.Types.{TaxRate, ShippingMethod, Discount, DiscountCreate}
use openmarket.Shared.Machine.{Run, Reach, Step, commit, here, more, act, reply}
use openmarket.Admin.Settings.{
  TaxForm, ShipForm, DiscountForm, Loaded, State, blank_tax, blank_ship, blank_discount, Request,
  Answer, Event, load_all, tax_typed, ship_typed, discount_typed, delete_clicked, create_tax,
  create_shipping, create_discount, done, failed, tax_clicked, ship_clicked, discount_clicked, load,
  toast, is_offered, tax_requests, ship_requests, replied, discount_requests, react, page,
}

abbrev pub quiet : (iso : Text → Text) → State → Run (page iso)
quiet iso s = record { state = s; waiting = [] }

-- The pages after a form has been created, but for the lists.
abbrev pub after_tax : State → State
after_tax s = record s {
  loading = false;
  tax = blank_tax;
  toasts = s.toasts ++ codes "Tax rate created" ∷ [];
}

abbrev pub after_ship : State → State
after_ship s = record s {
  loading = false;
  ship = blank_ship;
  toasts = s.toasts ++ codes "Shipping method created" ∷ [];
}

abbrev pub after_discount : State → State
after_discount s = record s {
  loading = false;
  discount = record blank_discount { type = s.discount.type };
  toasts = s.toasts ++ codes "Discount created" ∷ [];
}

abbrev pub IsFilledTax : TaxForm → Type 0
IsFilledTax f = (is_empty f.name ≡ false) × (is_empty f.rate ≡ false)

abbrev pub IsFilledShip : ShipForm → Type 0
IsFilledShip f = (is_empty f.name ≡ false) × (is_empty f.price ≡ false)

abbrev pub IsFilledDiscount : DiscountForm → Type 0
IsFilledDiscount f =
    (is_empty f.code ≡ false)
    × (is_empty f.value ≡ false)
    × (is_empty f.start ≡ false)
    × (is_empty f.end ≡ false)

abbrev pub ship_sent : ShipForm → ShipForm
ship_sent f = record f { min_order = if is_empty f.min_order then codes "0" else f.min_order }

abbrev pub discount_sent : (Text → Text) → DiscountForm → DiscountCreate
discount_sent iso f = record {
  code = f.code;
  discount_type = f.type;
  value = f.value;
  starts_at = iso f.start;
  ends_at = iso f.end;
}

module _ (iso : Text → Text) where
  -- The click is offered and sends the one request; and when, on whatever page there is by then, the
  -- request and the reload that it starts have succeeded, the page is `after` of it with the lists `l`.
  abbrev pub EndsIn :
      (e : Event) (r : Request) → Answer r → Loaded → (State → State) → State → Type 0
  EndsIn e r a l after s =
      (is_offered e s ≡ true)
      × (react iso e s ≡ (s, r ∷ []))
      × ((later : State)
          → ((replied r a later).1 ≡ load_all ∷ [])
            × (replied load_all (done l) (replied r a later).0
                ≡ (record (after later) { shown = l }, [])))

  -- On a page that has loaded, each form whose required fields are filled sends them by its button, the
  -- shipping method with the minimum "0" if none is typed and the discount with ISO dates. When the
  -- request and then the reload have succeeded, whatever was typed in between, the page shows the lists
  -- that the server has then, that form is blank but for the kind of a discount, the other forms are as
  -- they were, one message is told, and nothing more is sent.
  pub created_to_end :
      (s : State) (l : Loaded) (t : TaxRate) (m : ShippingMethod) (d : Discount)
      → s.loading ≡ false
      → (IsFilledTax s.tax → EndsIn tax_clicked (create_tax s.tax) (done t) l after_tax s)
        × (IsFilledShip s.ship
            → EndsIn ship_clicked (create_shipping (ship_sent s.ship)) (done m) l after_ship s)
        × (IsFilledDiscount s.discount
            → EndsIn discount_clicked
                (create_discount (discount_sent iso s.discount))
                (done d)
                l
                after_discount
                s)
  unfolding react replied toast load is_offered tax_requests ship_requests discount_requests
  created_to_end s l t m d idle = (
    λ f. (rw idle refl, rw (react, tax_requests, f.0, f.1) refl, λ later. (refl, refl)),
    λ f. (rw idle refl, rw (react, ship_requests, f.0, f.1) refl, λ later. (refl, refl)),
    λ f. (
      rw idle refl,
      rw (react, discount_requests, f.0, f.1, f.2, f.3) refl,
      λ later. (refl, refl),
    ),
  )

  -- No step leaves a page that is loading and waits for nothing.
  Step-stuck :
      {s : State}
      → s.loading ≡ true
      → {run : Run (page iso)} → Step (page iso) (quiet iso s) run
      → ⊥
  unfolding is_offered
  Step-stuck {s} h (act (delete_clicked i) o q) = ground (arith, h, o)
  Step-stuck {s} h (act (tax_typed f) o q) = ground (arith, h, o)
  Step-stuck {s} h (act (ship_typed f) o q) = ground (arith, h, o)
  Step-stuck {s} h (act (discount_typed f) o q) = ground (arith, h, o)
  Step-stuck {s} h (act tax_clicked o q) = ground (arith, h, o)
  Step-stuck {s} h (act ship_clicked o q) = ground (arith, h, o)
  Step-stuck {s} h (act discount_clicked o q) = ground (arith, h, o)
  Step-stuck h (reply [] after r a w q) = cc
  Step-stuck h (reply (p ∷ before) after r a w q) = cc

  Reach-stuck :
      {s : State}
      → s.loading ≡ true
      → {run : Run (page iso)} → Reach (page iso) (quiet iso s) run
      → run ≡ quiet iso s
  Reach-stuck h here = refl
  Reach-stuck {s} h (more {run} r st) = absurd (Step-stuck h (rw (Reach-stuck h r) at st))

  -- If the only request that waits is the one that loads the lists, and it fails, the failure is not
  -- caught: the page is the spinner for good, since from there no run leads anywhere else.
  pub stuck_for_good :
      (s : State) (m : Text) (run : Run (page iso))
      → Reach (page iso) (commit (page iso) [] (replied load_all (failed m) (load s).0)) run
      → run ≡ quiet iso (record s { loading = true })
  unfolding replied load
  stuck_for_good s m run r = Reach-stuck refl r
