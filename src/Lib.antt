-- ===== src/Lib.antt =====
-- The till, the storefront and the administration of OpenMarket: a model of the parts of the frontend
-- that keep the state of a sale, a cart or a stock and send orders and changes, with proofs about them.
--
-- The program. frontend/packages holds three React applications and a package that they share; paths
-- like store/src below are relative to it.
-- `store` is the shop that customers see, with a cart in a context (store/src/store/cartStore.tsx) that
-- the checkout (store/src/pages/CartCheckoutPage.tsx) turns into an order. `pos` is the till: its page
-- (pos/src/pages/SalePage.tsx) keeps the current sale and opens modals (pos/src/components) for paying,
-- weighing, returning goods, voiding the last sale and recalling parked sales. `admin` manages the shop.
-- All talk to the backend by requests, whose replies arrive later and in any order.
--
-- The model. A component is its state as a record, the events that it offers (`is_offered`: the button
-- or the modal is rendered and not disabled), what an event does before the first `await` (`react`),
-- the requests that wait, and what a reply does (`replied`). A record of these is a `Machine` in
-- Shared/Machine.antt, whose runs take events and replies in any order; Shared/Machine/Flight.antt has
-- the lemmas on machines that guard their requests by a flag, Shared/Machine/Waiting.antt those on
-- invariants of a state and of what waits. The sale page has runs of its own (Pos/Sale/Run.antt),
-- because its keyboard listener belongs to an older render than its buttons, and the web socket's hook
-- has steps of its own (Shared/Socket.antt).
--
--   Prelude, Prelude/*         names of the library passed on, and lists, texts, integers and tests over
--                              the native numbers
--   Shared/Types, Types/Till   frontend/packages/shared/src/types.ts
--   Store/Cart, Store/Cart/*   cartStore.tsx: `addItem` is add_item, `removeItem` is remove_item,
--                              `updateQuantity` is update_quantity, `clearCart` is the operation clear,
--                              `loadCart` and `saveCart` are in Cart/Storage
--   Store/Product/Page         store/src/pages/ProductDetailPage.tsx: handle_add is `handleAdd`
--   Store/Product/Stock, Choice, Late   what is proved of it
--   Store/Product/Labels       its labels of the stock, and those of the cards in the shop
--   Store/Shop/Page, Types     store/src/pages/ShopPage.tsx: start_quick_add and finish_quick_add are
--                              `quickAdd` before and after its `await`
--   Store/Shop/Pending, Adding, Address    what is proved of it
--   Store/Account, Account/Mixed   store/src/pages/AccountPage.tsx
--   Store/Status, Status/Found     store/src/pages/OrderStatusPage.tsx
--   Store/Checkout/Prices      CartCheckoutPage.tsx, the amounts: final_total is `finalTotal`
--   Store/Checkout/Form        its fields and their validation: validate_form is `validateForm`
--   Store/Checkout/Page        its state, events, requests and replies: place_order is `placeOrder`
--   Store/Checkout/Amounts, Placing    what is proved of these
--   Pos/Sale/Items             SalePage.tsx, the lines of the sale (`addToSale`, `updateQty`)
--   Pos/Sale/Bodies            the bodies and the receipt made of them (`buildReceiptItems`), and the
--                              totals of pos/src/components/Receipt.tsx
--   Pos/Sale/State             its state variables, requests and effects
--   Pos/Sale/Handlers, Payments    its handlers up to the first `await`, and what comes after it
--   Pos/Sale/Keyboard          the listener for the keys, `handleKeyDown`
--   Pos/Sale/Events, Replies   its buttons and modals, and the dispatch of events and of replies
--   Pos/Sale/Run               its runs, with the listener's dependencies (same_deps)
--   Pos/Sale/Lines, Validity, Steps, Safety, Storno, Guarded, Paying, Parking, Weighed, Shortcuts
--                              what is proved of it
--   Pos/Payment/Cash, Tenders  pos/src/components/PaymentCashModal.tsx
--   Pos/Payment/Card           pos/src/components/PaymentCardModal.tsx
--   Pos/Payment/Split          pos/src/components/PaymentSplitModal.tsx
--   Pos/Keypads/Weight         pos/src/components/WeighedProductInput.tsx
--   Pos/Keypads/Pin            pos/src/pages/CashierLogin.tsx
--   Pos/Returns, Returns/Bounds    pos/src/components/ReturnModal.tsx
--   Pos/Modals/Override        pos/src/components/ManagerOverrideModal.tsx
--   Pos/Modals/Attach, Attach/Names    pos/src/components/CustomerAttachModal.tsx
--   Pos/Modals/Parked          pos/src/components/ParkedSalesPicker.tsx
--   Shared/Toasts, Toasts/Kept     shared/src/components/Toast.tsx
--   Shared/Client              `request` of shared/src/api.ts, `fetchMe` and the posts of
--                              shared/src/auth.ts
--   Shared/Api, Api/Goods, Api/Staff   shared/src/api.ts: qs is `qs`, and send the request of each call
--   Shared/Api/Escapes, Query, Address     a server's reading of these addresses
--   Shared/Debounce, Debounce/Settled  shared/src/useDebounce.ts
--   Shared/Barcode, Barcode/Once, Left     shared/src/components/BarcodeScanner.tsx
--   Shared/Camera/Reader, Photo, Ends  shared/src/components/OCRScanner.tsx and CameraCapture.tsx
--   Pos/Gate                   pos/src/components/RequireCashier.tsx
--   Pos/Health, Health/Polls   pos/src/components/HealthDots.tsx
--   Pos/Shift, Shift/Closing   pos/src/pages/ShiftOpen.tsx and ShiftClose.tsx
--   Shared/Csv, Csv/Reading    shared/src/exportCsv.ts, and a reader of such files
--   Shared/Socket              shared/src/useWebSocket.ts
--   Admin/Variants, Handles    admin/src/pages/ProductsInventoryPage.tsx, the draft of a variant and the
--                              handle of a product
--   Admin/Stock/Levels, Page   the same page, its list, locations and stock: inventory_of is the loop of
--                              `loadInventory`, set_stock is `setStock`
--   Admin/Stock/Keys, Updates, Sent     what is proved of these
--   Admin/Create, Create/Chain     the same page, the form for a new product: create_product, replied and
--                              finish are `createProduct` in its parts
--   Admin/Editing, Editing/Ends    the same page, editing a variant in the table: start_edit_variant,
--                              save_variant and finish are `startEditVariant` and `saveVariant`
--   Admin/Security, Security/Codes     admin/src/pages/Security.tsx
--   Admin/Edit                 admin/src/pages/VariantEdit.tsx, and how that page opens it
--   Admin/Import               the import of a file into that page
--   Admin/Settings, Settings/Ends  admin/src/pages/SettingsPage.tsx: load is `loadAll` up to its requests
--   Admin/Analytics, Analytics/Chart, Late     admin/src/pages/AnalyticsPage.tsx
--   Admin/Entry, Entry/Opened  admin/src/components/RequireAuth.tsx
--   Admin/Entry/Login, Setup   admin/src/pages/Login.tsx and Setup.tsx
--   Admin/Users, Users/Pins and Bodies  admin/src/pages/Users.tsx
--   Admin/Customers, Customers/Orders  admin/src/pages/CustomersPage.tsx
--   Admin/Sales, Sales/Voiding     admin/src/pages/RecentSales.tsx
--   Admin/Shell, Shell/Roles   admin/src/App.tsx
--   Admin/Reports              admin/src/pages/ZReport.tsx and DsfinvkExport.tsx
--   Admin/Orders/Page, Export  admin/src/pages/OrdersPage.tsx: fulfill_all_visible is
--                              `fulfillAllVisible`, handle_export is `handleExport`
--   Admin/Orders/Bulk          what is proved of it
--   Admin/Palette/Rows, State, Effects, Sections   admin/src/components/CommandPalette.tsx: the rows,
--                              the state and effects, what the user does and the replies, the list
--   Admin/Palette/Sound        what is proved of these
--   Shared/Uri, Numerals       `encodeURIComponent` and the decimal digits of a number
--   Tests, Tests/*             sample data, a concrete arithmetic, and the results at concrete inputs
--
-- Numbers. The source computes amounts in floating point. The model takes the type of these numbers and
-- their operations as a parameter (`Number`, in Prelude/Numbers.antt), with `parseFloat` and `toFixed`
-- among them; where a theorem needs laws of the arithmetic it takes the record IsIeee of them. Ids and
-- quantities are natural numbers, a quantity that an event sets is an integer. The heights of the chart
-- take the laws of ratios, the record IsScaled. A text is the list of its
-- character codes. Only the digits of a number are computed on fuel, which is more than there are digits;
-- all other recursion is on lists, numbers and runs.
--
-- JSON is a parameter too: for the storage of the cart with the law that it reads back what it prints,
-- for the server's bodies with the field `detail` and the test for null. So are `toLowerCase` for the
-- handles of products, `parseInt` for the numbers in the stock fields and the counts of a shift, the
-- browser's forms of a date and its test for an email address. Cameras, html5-qrcode and tesseract.js are the replies to requests.
--
-- Replies. A reply is any value of its type or a failure with any message: nothing is assumed of the
-- server. An id that the browser draws for a charge is part of the event. Where a reply runs code of an
-- older render, as the reports of the till's payment and override modals do, the request carries what
-- that render had read.
--
-- Not modelled: styles and focus, the writing of amounts and ages on the pages, which are markup, hooks
-- that only subscribe to the browser, and the backend, which is another program.
pub mod Prelude
pub mod Shared
pub mod Store
pub mod Pos
pub mod Admin
pub mod Tests
