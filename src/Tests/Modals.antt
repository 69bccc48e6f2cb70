-- ===== src/Tests/Modals.antt =====
-- The payment modals, the keypads and the return modal at concrete states.
use openmarket.Prelude.{◌≡◌, refl, true, false, some, [], ◌∷◌, codes, Text}
use openmarket.Shared.Machine.{Run, Reach, act, reply, here, more}
use openmarket.Pos.Payment.Cash as Cash
use openmarket.Pos.Payment.Card as Card
use openmarket.Pos.Payment.Split as Split
use openmarket.Pos.Payment.Cash.{one_cash_charge, charge_covered}
use openmarket.Pos.Payment.Card.{one_card_charge, retried_after_decline}
use openmarket.Pos.Payment.Split.{one_split_charge, charge_adds_up}
use openmarket.Pos.Payment.Tenders.{quick_tenders}
use openmarket.Tests.Whole.{Whole, whole}

abbrev due : Text
due = codes "16"

abbrev cash_start : Run (Cash.modal Whole 40 due)
cash_start = record { state = Cash.initial due; waiting = [] }

abbrev cash_sent : Run (Cash.modal Whole 40 due)
cash_sent =
    let (s, sent) = Cash.react Whole 40 due (Cash.submitted (codes "id")) cash_start.state in
    record { state = s; waiting = sent }

cash_run : Reach (Cash.modal Whole 40 due) cash_start cash_sent
unfolding Cash.is_offered Cash.initial Cash.is_short Cash.react
cash_run = more here (act (Cash.submitted (codes "id")) refl refl)

quick_tenders_run :
    quick_tenders {N = Whole} (some 16) ≡ some 16 ∷ some 20 ∷ some 50 ∷ some 100 ∷ some 200 ∷ []
unfolding quick_tenders
quick_tenders_run = refl

abbrev card_start : Run (Card.modal 40)
card_start = let (s, sent) = Card.opened 40 (codes "a") in record { state = s; waiting = sent }

abbrev declined : Run (Card.modal 40)
declined = record {
  state =
      Card.replied 40 (record { client_id = codes "a"; order_id = 40 })
        (Card.failed (codes "Card Declined")) card_start.state;
  waiting = [];
}

card_run : Reach (Card.modal 40) card_start declined
unfolding Card.opened
card_run = more here (
    reply [] [] (record { client_id = codes "a"; order_id = 40 })
      (Card.failed (codes "Card Declined")) refl refl)

says_declined_run :
    (Card.says_declined (codes "Card DECLINED by bank") ≡ true)
    × (Card.says_declined (codes "terminal offline") ≡ false)
unfolding Card.says_declined
says_declined_run = (refl, refl)

abbrev split_start : Run (Split.modal Whole 40 (some 16))
split_start = record { state = Split.initial; waiting = [] }

abbrev split_typed : Run (Split.modal Whole 40 (some 16))
split_typed = record {
  state = (Split.react Whole 40 (some 16) (Split.typed (codes "6")) Split.initial).0;
  waiting = [];
}

split_run : Reach (Split.modal Whole 40 (some 16)) split_start split_typed
unfolding Split.is_offered Split.initial Split.react
split_run = more here (act (Split.typed (codes "6")) refl refl)
