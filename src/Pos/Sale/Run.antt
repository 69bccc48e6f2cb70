-- ===== src/Pos/Sale/Run.antt =====
-- SalePage.tsx: the page with its requests that wait for replies and the snapshot of the keyboard
-- listener. One step is an event that the page offers, or the reply to any waiting request, in
-- whatever order the server answers.
use openmarket.Prelude.{
  ◌≡◌, refl, Bool, true, false, not, ◌&&◌, Option, none, some, List, [], ◌∷◌, ◌++◌, Number,
  if◌then◌else◌, is_some, text_eq, length, ◌==◌,
}
use openmarket.Pos.Sale.Lines.{IsValid, nil-IsValid}
use openmarket.Pos.Sale.State.{Page, initial, PayMethod, Request, Effect, send, toast}
use openmarket.Pos.Sale.Handlers.{Snapshot, snapshot}
use openmarket.Pos.Sale.Events.{Event, react, is_offered, same_method}
use openmarket.Pos.Sale.Replies.{replied, Answer}
use openmarket.Pos.Sale.Steps.{IsPaired, react-IsPaired, replied-IsPaired}
use openmarket.Pos.Sale.Validity.{IsHonest, PrintsWeights, react-IsValid, replied-IsValid}

pub record System (N : Type 0) : Type 0 where
  pub page : Page N
  pub waiting : List Request
  pub shortcuts : Snapshot

abbrev pub same : Bool → Bool → Bool
same true b = b
same false b = not b

abbrev pub same_pay : Option PayMethod → Option PayMethod → Bool
same_pay none o = not (is_some o)
same_pay (some m) o = same_method m o

-- Whether the dependencies of the keyboard effect are what they were: the number of lines, and not
-- the lines or the customer.
unfoldable pub same_deps : {N : Type 0} → Page N → Page N → Bool
same_deps s t =
    length s.sale_items == length t.sale_items
    && s.object_count == t.object_count
    && same (is_some s.receipt_data) (is_some t.receipt_data)
    && text_eq s.error t.error
    && same s.show_return t.show_return
    && same (is_some s.weighed_prompt) (is_some t.weighed_prompt)
    && same_pay s.pay_method t.pay_method
    && same s.show_customer_modal t.show_customer_modal
    && same s.show_parked_picker t.show_parked_picker
    && same s.confirm_void t.confirm_void
    && same s.confirm_park t.confirm_park
    && same s.confirm_storno t.confirm_storno
    && same s.storno_override_open t.storno_override_open

abbrev pub requests : List Effect → List Request
requests [] = []
requests (send r ∷ es) = r ∷ requests es
requests (toast t b ∷ es) = requests es

module _ {N : Type 0} where
  -- The render after a handler: new requests wait, and the listener is made anew if a dependency of
  -- its effect has changed.
  unfoldable pub commit : System N → List Request → Page N × List Effect → System N
  commit sys waiting (t, effects) = record {
    page = t;
    waiting = waiting ++ requests effects;
    shortcuts = if same_deps sys.page t then sys.shortcuts else snapshot t;
  }

  unfoldable pub start : System N
  start = record {
    page = initial N;
    waiting = Request.list_parked ∷ [];
    shortcuts = snapshot (initial N);
  }

module _ {N : Type 0} ⦃n : Number N⦄ where
  unfoldable pub perform : Event N → System N → System N
  unfolding commit
  perform e sys = commit sys sys.waiting (react e sys.shortcuts sys.page)

  pub data Step (sys : System N) (next : System N) : Type 0 where
    act : (e : Event N) → is_offered e sys.page ≡ true → next ≡ perform e sys → Step sys next
    reply :
        (before after : List Request) (r : Request) (a : Answer r)
        → sys.waiting ≡ before ++ (r ∷ after)
        → next ≡ commit sys (before ++ after) (replied r a sys.page)
        → Step sys next

  pub data Reach : System N → Type 0 where
    here : Reach start
    more : {sys next : System N} → Reach sys → Step sys next → Reach next

  -- Of a run: the parked sales that were recalled hold what was parked of valid sales.
  abbrev pub StepHonest : {sys next : System N} → Step sys next → Type 0
  StepHonest (act e o q) = IsHonest e
  StepHonest (reply before after r a k q) = Unit

  abbrev pub ReachHonest : {sys : System N} → Reach sys → Type 0
  ReachHonest here = Unit
  ReachHonest (more r st) = ReachHonest r × StepHonest st

  pub record IsSound (sys : System N) : Type 0 where
    pub paired : IsPaired sys.page
    pub valid : IsValid sys.page.sale_items

  start-IsSound : IsSound start
  unfolding start
  start-IsSound = record { paired = refl; valid = nil-IsValid }

  Step-IsSound :
      {sys next : System N} (st : Step sys next)
      → PrintsWeights N
      → StepHonest st
      → IsSound sys
      → IsSound next
  unfolding perform commit
  Step-IsSound {sys} (act e o q) w t h = rw q record {
    paired = react-IsPaired e sys.shortcuts sys.page h.paired;
    valid = react-IsValid e sys.shortcuts sys.page w t h.valid;
  }
  Step-IsSound {sys} (reply before after r a k q) w t h = rw q record {
    paired = replied-IsPaired r a sys.page h.paired;
    valid = replied-IsValid r a sys.page h.valid;
  }

  -- Whatever the user does and in whatever order the server answers, in every state of the till that
  -- can be reached a payment modal is open exactly when an order waits to be paid, every variant that
  -- is sold by the piece has at most one line by the piece, and no line has the quantity 0. It is
  -- assumed that weights print as texts that are not empty, and that each parked sale that was
  -- recalled on the way holds what a till had parked of a sale that satisfied the same.
  pub Reach-IsSound :
      {sys : System N} (r : Reach sys) → PrintsWeights N → ReachHonest r → IsSound sys
  Reach-IsSound here w t = start-IsSound
  Reach-IsSound (more r st) w t = Step-IsSound st w t.1 (Reach-IsSound r w t.0)
