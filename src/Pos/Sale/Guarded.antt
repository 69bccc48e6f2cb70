-- ===== src/Pos/Sale/Guarded.antt =====
-- SalePage.tsx: in a run of the till, when a transaction is voided, and what empties a sale.
use openmarket.Prelude.{
  ◌≡◌, ◌≢◌, ◌⊎◌, inl, inr, refl, Bool, true, false, is_empty, Option, some, List, [], ◌∷◌, ◌++◌,
  Number, arith, All, All-append, Text,
}
use openmarket.Shared.Machine.Waiting.{All-weaken, All-without, All-at}
use openmarket.Pos.Sale.State.{
  Page, Request, lookup_variant, list_products, get_products, create_order, list_parked,
  create_parked, get_customer, cancel_parked, reprint, void_tx, charge, authorize,
}
use openmarket.Pos.Sale.Handlers.{
  add_by_barcode, variant_replied, search_products, products_replied, details_replied,
  weighed_confirmed, void_sale, park_sale, park_replied, recall_sale, customer_replied,
  recall_replied, parked_replied, do_reprint, do_storno, storno_replied, authorization_replied,
}
use openmarket.Pos.Sale.Payments.{
  pay, order_replied, cash_paid, card_paid, split_paid, payment_replied,
}
use openmarket.Pos.Sale.Events.{Event, react, is_offered, override_submitted}
use openmarket.Pos.Sale.Keyboard.{on_key}
use openmarket.Pos.Sale.Replies.{replied, Answer, reprint_replied}
use openmarket.Pos.Sale.Run.{
  System, Step, act, reply, Reach, here, more, start, perform, commit, requests,
}
use openmarket.Pos.Sale.Safety.{
  MayEmpty, MayEmptyReply, react_kept, replied_kept, voids, is_authorization, asked_for,
  react-voids, replied-voids,
}

-- The authorizations among some requests.
abbrev asks : List Request → List (Option Text)
asks [] = []
asks (authorize last ∷ rs) = last ∷ asks rs
asks (lookup_variant c b ∷ rs) = asks rs
asks (list_products q ∷ rs) = asks rs
asks (get_products ids ∷ rs) = asks rs
asks (create_order b m d ∷ rs) = asks rs
asks (list_parked ∷ rs) = asks rs
asks (create_parked b ∷ rs) = asks rs
asks (get_customer c p ∷ rs) = asks rs
asks (cancel_parked i ∷ rs) = asks rs
asks (reprint t ∷ rs) = asks rs
asks (void_tx t ∷ rs) = asks rs
asks (charge m shown ∷ rs) = asks rs

-- Each authorization among the requests is for a transaction with the property.
abbrev IsBacked : (Option Text → Type 0) → Request → Type 0
IsBacked P (authorize last) = P last
IsBacked P r = Unit

unasked : (P : Option Text → Type 0) (rs : List Request) → asks rs ≡ [] → All (IsBacked P) rs
unasked P [] h = tt
unasked P (authorize last ∷ rs) h = absurd (ground (arith, h))
unasked P (lookup_variant c b ∷ rs) h = (tt, unasked P rs h)
unasked P (list_products q ∷ rs) h = (tt, unasked P rs h)
unasked P (get_products ids ∷ rs) h = (tt, unasked P rs h)
unasked P (create_order b m d ∷ rs) h = (tt, unasked P rs h)
unasked P (list_parked ∷ rs) h = (tt, unasked P rs h)
unasked P (create_parked b ∷ rs) h = (tt, unasked P rs h)
unasked P (get_customer c p ∷ rs) h = (tt, unasked P rs h)
unasked P (cancel_parked i ∷ rs) h = (tt, unasked P rs h)
unasked P (reprint t ∷ rs) h = (tt, unasked P rs h)
unasked P (void_tx t ∷ rs) h = (tt, unasked P rs h)
unasked P (charge m shown ∷ rs) h = (tt, unasked P rs h)

IsBacked-weaken :
    (P Q : Option Text → Type 0)
    → ((o : Option Text) → P o → Q o)
    → (r : Request) → IsBacked P r
    → IsBacked Q r
IsBacked-weaken P Q f (authorize last) h = f last h
IsBacked-weaken P Q f _ h = tt

backed_for :
    (P : Option Text → Type 0) (r : Request) (a : Answer r) (t : Text)
    → is_authorization r a ≡ true
    → asked_for r ≡ some t
    → IsBacked P r
    → P (some t)
backed_for P (authorize last) a t h e k = rw e at k
backed_for P r a t h e k = cc

module _ {N : Type 0} ⦃n : Number N⦄ where
  -- In the step the override modal, which is open, is submitted, while the given transaction is the
  -- last one.
  abbrev pub AsksIn : {sys next : System N} → Step sys next → Option Text → Type 0
  AsksIn {sys} (act override_submitted o q) last =
      (sys.page.storno_override_open ≡ true) × (sys.page.last_tx_id ≡ last)
  AsksIn st last = ⊥

  -- In a step of the run.
  abbrev pub WasAsked : {sys : System N} → Reach sys → Option Text → Type 0
  WasAsked here last = ⊥
  WasAsked (more r st) last = WasAsked r last ⊎ AsksIn st last

  sent-IsBacked :
      (sys next : System N) (e : Event N) (o : is_offered e sys.page ≡ true)
      (q : next ≡ perform e sys)
      → All
          (IsBacked (AsksIn {sys = sys} {next = next} (act e o q)))
          (requests (react e sys.shortcuts sys.page).1)
  unfolding react add_by_barcode search_products weighed_confirmed void_sale park_sale recall_sale
      do_reprint pay on_key is_offered
  sent-IsBacked sys next override_submitted o q = ((o, refl), tt)
  sent-IsBacked sys next e o q =
      unasked (AsksIn {sys = sys} {next = next} (act e o q))
        (requests (react e sys.shortcuts sys.page).1) (ground arith)

  replied-unasked :
      (r : Request) (a : Answer r) (s : Page N) → asks (requests (replied r a s).1) ≡ []
  unfolding replied variant_replied products_replied details_replied park_replied customer_replied
      recall_replied parked_replied storno_replied order_replied reprint_replied
      authorization_replied do_storno payment_replied cash_paid card_paid split_paid
  replied-unasked r a s = ground arith

  kept-IsBacked :
      {sys next : System N} (r : Reach sys) (st : Step sys next) (rs : List Request)
      → All (IsBacked (WasAsked r)) rs
      → All (IsBacked (WasAsked (more r st))) rs
  kept-IsBacked r st rs h =
      All-weaken _ _ rs (IsBacked-weaken (WasAsked r) (WasAsked (more r st)) (λ o k. inl k)) h

  -- Each authorization that waits was asked for in the run.
  waiting-IsBacked : {sys : System N} (r : Reach sys) → All (IsBacked (WasAsked r)) sys.waiting
  unfolding perform commit start
  waiting-IsBacked here = (tt, tt)
  waiting-IsBacked (more {sys} r (act e o q)) =
      let st = act e o q in
      rw q (
        All-append _ sys.waiting (requests (react e sys.shortcuts sys.page).1)
          (kept-IsBacked r st sys.waiting (waiting-IsBacked r))
          (All-weaken _ _ (requests (react e sys.shortcuts sys.page).1)
            (IsBacked-weaken (AsksIn st) (WasAsked (more r st)) (λ o k. inr k))
            (sent-IsBacked sys _ e o q)))
  waiting-IsBacked (more {sys} r (reply before after a b k q)) =
      let st = reply before after a b k q in
      rw q (
        All-append _ (before ++ after) (requests (replied a b sys.page).1)
          (kept-IsBacked r st (before ++ after)
            (All-without _ before after a (rw k at (waiting-IsBacked r))))
          (unasked _ (requests (replied a b sys.page).1) (replied-unasked a b sys.page)))

  -- The transactions that a step asks the server to void.
  abbrev pub voided_in : {sys next : System N} → Step sys next → List Text
  voided_in {sys} (act e o q) = voids (react e sys.shortcuts sys.page).1
  voided_in {sys} (reply before after r a k q) = voids (replied r a sys.page).1

  -- The step is the reply to the override modal by which a manager authorizes.
  abbrev pub authorizes : {sys next : System N} → Step sys next → Bool
  authorizes (act e o q) = false
  authorizes (reply before after r a k q) = is_authorization r a

  -- In a run of the till, a step that asks the server to void transactions is a manager's
  -- authorization, and it asks once, for a transaction that was the last one when the override modal,
  -- which was open, was submitted earlier in the run.
  pub storno_guarded :
      {sys next : System N} (r : Reach sys) (st : Step sys next)
      → voided_in st ≢ []
      → (authorizes st ≡ true) × ((t : Text) × (voided_in st ≡ t ∷ []) × WasAsked r (some t))
  storno_guarded {sys} r (act e o q) h = absurd (h (react-voids e sys.shortcuts sys.page))
  storno_guarded {sys} r (reply before after a b k q) h =
      let (authorization, (t, last, once)) = replied-voids a b sys.page h in
      (
        authorization,
        (
          t,
          once,
          backed_for (WasAsked r) a b t authorization last
              (All-at _ before after a (rw k at (waiting-IsBacked r))),
        ),
      )

  -- What may empty a sale in a step.
  abbrev pub StepMayEmpty : {sys next : System N} → Step sys next → Type 0
  StepMayEmpty {sys} (act e o q) = MayEmpty e sys.page
  StepMayEmpty (reply before after r a k q) = MayEmptyReply r a

  -- If a sale that has lines is empty after a step of the till, then lines were removed or their
  -- quantities set, or its void was confirmed in the dialog, which was shown, or the server reported
  -- that a sale was parked or that a payment was made.
  pub sale_kept :
      {sys next : System N} (st : Step sys next)
      → is_empty sys.page.sale_items ≡ false
      → is_empty next.page.sale_items ≡ true
      → StepMayEmpty st
  unfolding perform commit
  sale_kept {sys} (act e o q) h k = react_kept e sys.shortcuts sys.page o h (rw q at k)
  sale_kept {sys} (reply before after r a _ q) h k = replied_kept r a sys.page h (rw q at k)
