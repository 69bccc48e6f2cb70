-- ===== src/Pos/Returns.antt =====
-- frontend/packages/pos/src/components/ReturnModal.tsx: looking an order up, choosing how much of each
-- line comes back, and sending the return.
pub mod Bounds
pub use openmarket.Shared.Machine.{Reply, done, failed}
use openmarket.Prelude.{
  ℕ, zero, suc, ◌+◌, ◌≤◌, ◌<◌, ◌≡◌, Bool, true, false, not, ◌&&◌, Option, none, some, List, [], ◌∷◌,
  ◌++◌, map, foldl, Number, nought, num_eq, ℤ, pos_part, min, find, filter, ltb, if◌then◌else◌,
  is_some, is_empty, is_filled, or_else, any, Text, codes, trim, ◌==◌,
}
use openmarket.Shared.Types.{Order, LineItem}

pub data Stage : Type 0 where
  lookup select success : Stage

-- `ReturnQty`: the entries that have been set.
abbrev pub Quantities : Type 0
Quantities = ℕ → Option ℕ

pub record State (N : Type 0) : Type 0 where
  pub stage : Stage
  pub order_number : Text
  pub order : Option Order
  pub return_qty : Quantities
  pub reason : Text
  pub loading : Bool
  pub error : Text
  pub refund_amount : N
  pub closed : Bool

pub record ReturnItem : Type 0 where
  pub line_item_id : ℕ
  pub quantity : ℕ

pub data Request : Type 0 where
  lookup_order : Text → Request
  post_return : ℕ → Text → List ReturnItem → Request

-- The order, and the total of the refund.
abbrev pub Answer : Request → Type 0
Answer (lookup_order number) = Reply Order
Answer (post_return order_id reason items) = Reply Text

pub data Event : Type 0 where
  number_typed : Text → Event
  looked_up : Event
  quantity_set : ℕ → ℤ → Event
  reason_typed : Text → Event
  back : Event
  processed : Event
  close : Event

abbrev pub has_id : ℕ → LineItem → Bool
has_id i l = l.id == i

abbrev pub returned : Quantities → ℕ → ℕ
returned q i = or_else (q i) 0

abbrev pub put : ℕ → ℕ → Quantities → Quantities
put i v q j = if i == j then some v else q j

-- `initial`: every line starts at 0.
unfoldable pub zeros : List LineItem → Quantities
zeros [] j = none
zeros (l ∷ ls) j = if l.id == j then some 0 else zeros ls j

-- `updateQty`: the quantity is kept between 0 and what was ordered on the line.
unfoldable pub update_qty : Order → ℕ → ℤ → Quantities → Quantities
update_qty o i z q = elim (find (has_id i) o.line_items) [
  | none ↦ q
  | some l ↦ put i (min (pos_part z) l.quantity) q
]

-- The items of `processReturn`.
unfoldable pub return_items : Quantities → List LineItem → List ReturnItem
return_items q [] = []
return_items q (l ∷ ls) =
    if ltb 0 (returned q l.id)
    then record { line_item_id = l.id; quantity = returned q l.id } ∷ return_items q ls
    else return_items q ls

abbrev pub or_message : Text → Text → Text
or_message d [] = d
or_message d (c ∷ t) = c ∷ t

module _ (N : Type 0) ⦃n : Number N⦄ where
  unfoldable pub initial : State N
  initial = record {
    stage = Stage.lookup;
    order_number = [];
    order = none;
    return_qty = λ j. none;
    reason = [];
    loading = false;
    error = [];
    refund_amount = nought;
    closed = false;
  }

  -- `computeTotal`.
  unfoldable pub compute_total : State N → N
  compute_total s = elim s.order [
    | none ↦ nought
    | some o ↦
        foldl
          (λ sum l. n.add sum (n.mul (n.parse_float l.price) (n.of_ℕ (returned s.return_qty l.id))))
          nought o.line_items
  ]

  abbrev pub in_stage : Stage → State N → Bool
  in_stage Stage.lookup s = elim s.stage [ Stage.lookup ↦ true | _ ↦ false ]
  in_stage Stage.select s = elim s.stage [ Stage.select ↦ is_some s.order | _ ↦ false ]
  in_stage Stage.success s = elim s.stage [ Stage.success ↦ true | _ ↦ false ]

  -- The field of the lookup also listens to Enter, while a lookup is under way too.
  unfoldable pub is_offered : Event → State N → Bool
  is_offered (number_typed t) s = in_stage Stage.lookup s
  is_offered looked_up s = in_stage Stage.lookup s
  is_offered (quantity_set i z) s = in_stage Stage.select s
  is_offered (reason_typed t) s = in_stage Stage.select s
  is_offered back s = in_stage Stage.select s
  is_offered processed s =
      in_stage Stage.select s && not s.loading && not (num_eq (compute_total s) nought)
  is_offered close s = true

  unfoldable pub react : Event → State N → State N × List Request
  react (number_typed t) s = (record s { order_number = t }, [])
  react looked_up s =
      if is_filled s.order_number
      then (record s { loading = true; error = [] }, lookup_order (trim s.order_number) ∷ [])
      else (s, [])
  react (quantity_set i z) s = elim s.order [
    | none ↦ (s, [])
    | some o ↦ (record s { return_qty = update_qty o i z s.return_qty }, [])
  ]
  react (reason_typed t) s = (record s { reason = t }, [])
  react back s = (record s { stage = Stage.lookup; error = [] }, [])
  react processed s = elim s.order [
    | none ↦ (s, [])
    | some o ↦
        let items = return_items s.return_qty o.line_items in
        if is_empty items
        then (record s { error = codes "Select at least one item to return." }, [])
        else (record s { loading = true; error = [] }, post_return o.id s.reason items ∷ [])
  ]
  react close s = (record s { closed = true }, [])

  unfoldable pub replied : (r : Request) → Answer r → State N → State N
  replied (lookup_order number) (done o) s = record s {
    order = some o;
    return_qty = zeros o.line_items;
    stage = Stage.select;
    loading = false;
  }
  replied (lookup_order number) (failed m) s = record s {
    error = or_message (codes "Order not found") m;
    loading = false;
  }
  replied (post_return i reason items) (done refund) s = record s {
    refund_amount = n.parse_float refund;
    stage = Stage.success;
    loading = false;
  }
  replied (post_return i reason items) (failed m) s = record s {
    error = or_message (codes "Failed to process return") m;
    loading = false;
  }
