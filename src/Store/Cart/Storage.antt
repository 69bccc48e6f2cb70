-- ===== src/Store/Cart/Storage.antt =====
-- cartStore.tsx: the copy of the cart in the browser's storage, and a session from one load of the shop
-- to the next. JSON is a parameter, with the law that what it prints is not empty and reads back. A write
-- may fail (the quota is exceeded), and one render may save what several operations did; the flag of an
-- operation says whether its cart was written.
use openmarket.Prelude.{
  ◌≡◌, ◌⊎◌, inl, inr, refl, ap, ◌∙◌, Bool, true, false, Option, none, some, List, [], ◌∷◌, ◌++◌,
  map, or_else, if◌then◌else◌,
}
use openmarket.Shared.Types.{CartItem}
use openmarket.Store.Cart.{CartOp, apply, apply_all}

pub record Json : Type 1 where
  -- The texts of JSON.
  pub Raw : Type 0
  pub is_blank : Raw → Bool
  pub stringify : List CartItem → Raw
  -- None is an exception.
  pub parse : Raw → Option (List CartItem)

pub record IsFaithful (json : Json) : Type 0 where
  pub parsed : (items : List CartItem) → json.parse (json.stringify items) ≡ some items
  pub printed : (items : List CartItem) → json.is_blank (json.stringify items) ≡ false

pub record Session (json : Json) : Type 0 where
  pub items : List CartItem
  pub stored : Option json.Raw

abbrev pub operations : List (CartOp × Bool) → List CartOp
operations ops = map (λ o. o.0) ops

-- A cart that the session had after some of its operations.
abbrev pub IsPast : List (CartOp × Bool) → List CartItem → List CartItem → Type 0
IsPast ops items cart =
    (before : List CartOp) × (after : List CartOp) × (operations ops ≡ before ++ after)
    × (cart ≡ apply_all before items)

module _ (json : Json) where
  -- `loadCart`.
  unfoldable pub load_cart : Option json.Raw → List CartItem
  load_cart none = []
  load_cart (some raw) = if json.is_blank raw then [] else or_else (json.parse raw) []

  -- `saveCart`.
  unfoldable pub save_cart : Bool → List CartItem → Option json.Raw → Option json.Raw
  save_cart true items stored = some (json.stringify items)
  save_cart false items stored = stored

  -- The provider's first render and its effect.
  unfoldable pub mount : Bool → Option json.Raw → Session json
  unfolding load_cart save_cart
  mount fits stored = record {
    items = load_cart stored;
    stored = save_cart fits (load_cart stored) stored;
  }

  unfoldable pub operate : CartOp → Bool → Session json → Session json
  unfolding save_cart
  operate op fits s =
      let items = apply op s.items in
      record { items = items; stored = save_cart fits items s.stored }

  unfoldable pub run : List (CartOp × Bool) → Session json → Session json
  unfolding operate
  run [] s = s
  run ((op, fits) ∷ ops) s = run ops (operate op fits s)

  module _ (law : IsFaithful json) where
    load-stringify : (items : List CartItem) → load_cart (some (json.stringify items)) ≡ items
    unfolding load_cart
    load-stringify items = rw (law.printed items, law.parsed items) refl

    load-mount :
        (fits : Bool) (stored : Option json.Raw)
        → load_cart (mount fits stored).stored ≡ load_cart stored
    unfolding mount save_cart
    load-mount true stored = load-stringify (load_cart stored)
    load-mount false stored = refl

    load-run :
        (ops : List (CartOp × Bool)) (s : Session json)
        → (load_cart (run ops s).stored ≡ load_cart s.stored)
          ⊎ IsPast ops s.items (load_cart (run ops s).stored)
    unfolding run operate save_cart apply_all
    load-run [] s = inl refl
    load-run ((op, true) ∷ ops) s = elim (load-run ops (operate op true s)) [
      | inl k ↦ inr (op ∷ [], operations ops, refl, k ∙ load-stringify (apply op s.items))
      | inr (before, after, e, h) ↦ inr (op ∷ before, after, ap (λ os. op ∷ os) e, h)
    ]
    load-run ((op, false) ∷ ops) s = elim (load-run ops (operate op false s)) [
      | inl k ↦ inl k
      | inr (before, after, e, h) ↦ inr (op ∷ before, after, ap (λ os. op ∷ os) e, h)
    ]

    load-run_last :
        (ops : List (CartOp × Bool)) (op : CartOp) (s : Session json)
        → load_cart (run (ops ++ (op, true) ∷ []) s).stored
          ≡ apply_all (operations ops ++ op ∷ []) s.items
    unfolding run operate save_cart apply_all
    load-run_last [] op s = load-stringify (apply op s.items)
    load-run_last ((o, fits) ∷ ops) op s = load-run_last ops op (operate o fits s)

    -- Whatever writes fail, the cart that is loaded after a session is one that the session had: the cart
    -- that was loaded before it, after some first part of its operations. If the last write succeeds, it
    -- is the cart after all of them. This assumes that JSON prints no empty text and reads back what it
    -- prints.
    pub load_cart-run :
        (first : Bool) (stored : Option json.Raw) (ops : List (CartOp × Bool)) (op : CartOp)
        → IsPast ops (load_cart stored) (load_cart (run ops (mount first stored)).stored)
          × (load_cart (run (ops ++ (op, true) ∷ []) (mount first stored)).stored
              ≡ apply_all (operations ops ++ op ∷ []) (load_cart stored))
    unfolding mount apply_all
    load_cart-run first stored ops op = (
      elim (load-run ops (mount first stored)) [
        | inl k ↦ ([], operations ops, refl, k ∙ load-mount first stored)
        | inr past ↦ past
      ],
      load-run_last ops op (mount first stored),
    )
