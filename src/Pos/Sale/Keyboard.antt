-- ===== src/Pos/Sale/Keyboard.antt =====
-- SalePage.tsx: the keyboard listener.
use openmarket.Prelude.{
  Bool, true, false, not, ◌&&◌, ◌||◌, none, [], Number, if◌then◌else◌, is_some, is_empty,
}
use openmarket.Pos.Sale.State.{Page, cash}
use openmarket.Pos.Sale.Handlers.{Snapshot, Handler}
use openmarket.Pos.Sale.Payments.{pay}

pub data Key : Type 0 where
  escape f4 f8 f9 : Key

-- `modalOpen`: one flag for each modal that the listener looks at.
unfoldable pub modal_open : {N : Type 0} → Page N → Bool
modal_open s =
    s.show_customer_modal
    || s.show_parked_picker
    || s.confirm_void
    || s.confirm_park
    || s.confirm_storno
    || s.storno_override_open
    || is_some s.receipt_data
    || is_some s.weighed_prompt
    || is_some s.pay_method
    || s.show_return

-- The Escape key closes the first of four things that it finds.
unfoldable pub on_escape : {N : Type 0} → Page N → Page N
on_escape s =
    if is_some s.weighed_prompt
    then record s { weighed_prompt = none }
    else if is_some s.receipt_data
    then record s { receipt_data = none }
    else if not (is_empty s.error)
    then record s { error = [] }
    else if s.show_return
    then record s { show_return = false }
    else s

-- `handleKeyDown`. F8 pays with what the listener's render had read, the snapshot.
unfoldable pub on_key : {N : Type 0} ⦃n : Number N⦄ → Key → Snapshot → Handler N
unfolding modal_open on_escape
on_key escape snap s = (on_escape s, [])
on_key f8 snap s =
    if not (modal_open s) && not (is_empty snap.items) then pay cash snap s else (s, [])
on_key f4 snap s =
    if not (modal_open s) && not (is_empty snap.items)
    then (record s { confirm_void = true }, [])
    else (s, [])
on_key f9 snap s = if not (modal_open s) then (record s { show_return = true }, []) else (s, [])
