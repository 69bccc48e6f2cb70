-- ===== src/Admin/Sales/Voiding.antt =====
-- RecentSales.tsx: voiding a sale to the end, and twice.
use openmarket.Prelude.{
  ◌≡◌, refl, true, false, not, ◌&&◌, none, some, ◌+◌, length, length-append, List, [], ◌∷◌, any,
  is_truthy, text_eq, Text, arith,
}
use openmarket.Shared.Types.{PosTransactionListItem}
use openmarket.Shared.Machine.{Run, Reach, here, more, act, reply}
use openmarket.Admin.Sales.{
  State, list_after_void, void_sale, done, failed, storno_clicked, is_offered, react, replied, page,
}

abbrev pub quiet : State → Run page
quiet s = record { state = s; waiting = [] }

-- A sale that can be voided is in the list, and neither voided nor a void.
abbrev pub IsListed : Text → State → Type 0
IsListed i s = any (λ it. text_eq it.id i && not (is_truthy it.voids_transaction_id)) s.items ≡ true

-- While nothing waits, a sale that is listed and not busy is voided after the confirmation. When the
-- void and the list have come, the page shows the new list and no sale is busy; if the void fails, the
-- list is as it was, one message is told, and the same sale can be voided again.
pub voided_to_end :
    (s : State) (i m : Text) (is : List PosTransactionListItem)
    → IsListed i s
    → s.busy ≡ none
    → Reach page (quiet s) (quiet (record s { items = is; busy = none }))
      × ((t : State) × Reach page (quiet s) (quiet t)
          × (t.items ≡ s.items)
          × (t.busy ≡ none)
          × (length t.alerts ≡ length s.alerts + 1)
          × (is_offered (storno_clicked i true) t ≡ true))
unfolding react replied is_offered
voided_to_end s i m is l b =
    let o : is_offered (storno_clicked i true) s ≡ true = ground (arith, l, b) in
    let asked = more here (act (storno_clicked i true) o refl) in
    (
      more (more asked (reply [] [] (void_sale i) (done tt) refl refl))
          (reply [] [] list_after_void (done is) refl refl),
      (
        _,
        more asked (reply [] [] (void_sale i) (failed m) refl refl),
        refl,
        refl,
        length-append s.alerts _,
        ground (arith, l),
      ),
    )

-- Only the sale that was voided last is marked as busy: if a second sale is voided while the void of the
-- first is under way, the first can be voided again, and three requests wait, two for the same sale.
pub voided_twice :
    (s : State) (i k : Text)
    → IsListed i s
    → IsListed k s
    → s.busy ≡ none
    → text_eq i k ≡ false
    → text_eq k i ≡ false
    → Reach page (quiet s) (record {
      state = record s { busy = some i };
      waiting = void_sale i ∷ void_sale k ∷ void_sale i ∷ [];
    })
unfolding react is_offered
voided_twice s i k l m b ne en =
    more
      (more (more here (act (storno_clicked i true) (ground (arith, l, b)) refl))
        (act (storno_clicked k true) (ground (arith, m, ne)) refl))
      (act (storno_clicked i true) (ground (arith, l, en)) refl)
