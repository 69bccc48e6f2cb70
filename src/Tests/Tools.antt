-- ===== src/Tests/Tools.antt =====
-- The shared tools, the modals that report to the sale page and the administration at concrete values.
use openmarket.Prelude.{
  ◌≡◌, ◌⊎◌, refl, true, false, none, some, [], ◌∷◌, ◌++◌, map, List, all, is_filled, is_space, trim,
  codes, Text, arith,
}
use openmarket.Shared.Types.{ProductVariant, ParkedSale}
use openmarket.Shared.Machine.{Run, Reach, act, here, more}
use openmarket.Shared.Csv.{csv}
use openmarket.Shared.Csv.Reading.{read, read_csv, read_csv-csv}
use openmarket.Shared.Socket as Socket
use openmarket.Shared.Socket.{IsSingle, Reach-IsSingle, made_when_gone}
use openmarket.Pos.Modals.Override as Override
use openmarket.Pos.Modals.Override.{one_override}
use openmarket.Pos.Modals.Attach as Attach
use openmarket.Pos.Modals.Parked as Parked
use openmarket.Pos.Modals.Parked.{discard_confirmed}
use openmarket.Admin.Variants.{
  make_draft, payload_of, payload_of-make_draft, is_by_weight, by_weight, fixed,
}
use openmarket.Pos.Payment.Card.{to_lower}
use openmarket.Admin.Handles.{is_handle_char, handle_of}
use openmarket.Tests.Samples.{milk}

abbrev cells : List Text
cells = codes "Milk, 1 l" ∷ codes "\"fresh\"" ∷ []

read_csv-csv_example :
    read_csv (csv (codes "title" ∷ codes "note" ∷ []) (cells ∷ []))
    ≡ (codes "title" ∷ codes "note" ∷ []) ∷ cells ∷ []
read_csv-csv_example =
    read_csv-csv (codes "title" ∷ codes "note" ∷ []) (cells ∷ []) (refl, (refl, ground arith))

-- A file whose rows end as in RFC 4180.
crlf_run :
    read_csv (codes "a,\"b\"\"c\"" ++ 13 ∷ 10 ∷ (codes "d," ++ 13 ∷ 10 ∷ []))
    ≡ (codes "a" ∷ codes "b\"c" ∷ []) ∷ (codes "d" ∷ [] ∷ []) ∷ []
unfolding read_csv read
crlf_run = refl

abbrev lost : Socket.State
lost = Socket.react Socket.closed (Socket.react Socket.opened Socket.mounted)

lost_run : Socket.Reach Socket.mounted lost
unfolding Socket.is_possible Socket.mounted Socket.connect Socket.react
lost_run =
    Socket.Reach.more (Socket.Reach.more Socket.Reach.here Socket.opened refl) Socket.closed refl

Reach-IsSingle_example : IsSingle lost
Reach-IsSingle_example = Reach-IsSingle lost_run

abbrev gone : Socket.State
gone = Socket.react Socket.unmounted Socket.mounted

gone_cancelled : gone.cancelled ≡ true
unfolding Socket.react
gone_cancelled = refl

gone_run : Socket.Reach gone (Socket.react Socket.closed gone)
unfolding Socket.is_possible Socket.mounted Socket.connect Socket.react
gone_run = Socket.Reach.more Socket.Reach.here Socket.closed refl

abbrev storno : Text
storno = codes "storno"

abbrev asking : Run (Override.modal storno none)
asking = record { state = Override.initial; waiting = [] }

abbrev named : Run (Override.modal storno none)
named =
    let (s, sent) = Override.react storno none (Override.typed_email (codes "m@s")) asking.state in
    record { state = s; waiting = sent }

abbrev secret : Run (Override.modal storno none)
secret =
    let (s, sent) = Override.react storno none (Override.typed_password (codes "pw")) named.state in
    record { state = s; waiting = sent }

abbrev authorizing : Run (Override.modal storno none)
authorizing =
    let (s, sent) = Override.react storno none Override.submitted secret.state in
    record { state = s; waiting = sent }

authorizing_run : Reach (Override.modal storno none) asking authorizing
unfolding Override.is_offered Override.initial Override.react
authorizing_run =
    more
      (more (more here (act (Override.typed_email (codes "m@s")) refl refl))
        (act (Override.typed_password (codes "pw")) refl refl))
      (act Override.submitted refl refl)

abbrev typed : Attach.State
typed = record {
  phone = codes "+49 30 1";
  busy = false;
  error = [];
  show_create = true;
  name = codes " Jane  van Doe ";
  email = [];
  reports = [];
  closed = false;
}

typed_filled : is_filled typed.name ≡ true
unfolding is_filled
typed_filled = refl

names_run : (Attach.body_of typed).last_name ≡ codes "van Doe"
unfolding Attach.body_of trim
names_run = refl

abbrev cheese : ProductVariant
cheese = record milk {
  pricing_type = some (codes "by_weight");
  weight_unit = some (codes "kg");
  min_weight_kg = some (codes "0.1");
  max_weight_kg = none;
  tare_kg = none;
  compare_at_price = none;
}

payload_of-make_draft_example :
    let p = payload_of (make_draft cheese) in
    ((p.title ≡ cheese.title)
      × (p.sku ≡ cheese.sku)
      × (p.barcode ≡ cheese.barcode)
      × (p.price ≡ cheese.price))
    × (p.compare_at_price ≡ cheese.compare_at_price)
    × (((is_by_weight cheese.pricing_type ≡ true)
          × (p.pricing_type ≡ by_weight)
          × (p.weight_unit ≡ some (codes "kg"))
          × (p.min_weight_kg ≡ cheese.min_weight_kg)
          × (p.max_weight_kg ≡ cheese.max_weight_kg)
          × (p.tare_kg ≡ cheese.tare_kg))
        ⊎ ((is_by_weight cheese.pricing_type ≡ false)
            × (p.pricing_type ≡ fixed)
            × (p.weight_unit ≡ none)
            × (p.min_weight_kg ≡ none)
            × (p.max_weight_kg ≡ none)
            × (p.tare_kg ≡ none)))
payload_of-make_draft_example =
    payload_of-make_draft cheese (λ e. ground (arith, e)) (λ e. ground (arith, e))
      (λ e. ground (arith, e)) (λ e. ground (arith, e))

abbrev title : Text
title = codes "Oat  Milk, 2l"

abbrev lower_ascii : Text → Text
lower_ascii = map to_lower

lower_kept : (s : Text) → all is_handle_char s ≡ true → lower_ascii s ≡ s
unfolding is_handle_char
lower_kept [] h = refl
lower_kept (c ∷ s) h = ground (arith, h, lower_kept s)

handle_run : handle_of lower_ascii title ≡ codes "oat-milk-2l"
unfolding handle_of is_space is_handle_char
handle_run = refl

abbrev parked : ParkedSale
parked = record {
  id = 5;
  cashier_user_id = 1;
  customer_id = none;
  customer_name = none;
  items = [];
  note = [];
  created_at = codes "2024-01-01";
  item_count = 0;
}

abbrev discarding : Parked.State
discarding = record {
  sales = some (parked ∷ []);
  error = [];
  busy_id = none;
  confirm_cancel = some parked;
  recalls = [];
  closed = false;
}
