-- ===== src/Tests/Clients.antt =====
-- Shared/Client, Shared/Toasts and Pos/Gate at concrete inputs.
use openmarket.Prelude.{
  ◌≡◌, refl, true, false, none, some, [], ◌∷◌, ◌&&◌, ◌||◌, ◌==◌, is_some, Text, text_eq, codes,
}
use openmarket.Shared.Machine.{Run, Reach, here, more, act, reply, Reply, done, failed}
use openmarket.Shared.Client as Client
use openmarket.Shared.Client.{request_lem}
use openmarket.Shared.Numerals as Numerals
use openmarket.Shared.Toasts as Toasts
use openmarket.Shared.Toasts.Kept.{opened, IsKeyed, Reach-IsKeyed}
use openmarket.Pos.Gate as Gate
use openmarket.Pos.Gate.{gate_opened}

-- Bodies that are the details of errors themselves.
abbrev json : Client.Json
json = record { Body = Text; detail = λ b. some b; is_null = λ b. text_eq b (codes "null") }

abbrev teapot : Client.Response json
teapot = record { status = 418; body = some [] }

abbrev bad_json : Text
bad_json = codes "Unexpected token"

request_run : Client.request json bad_json (done teapot) ≡ failed (codes "HTTP 418")
unfolding Client.request Client.refusal Numerals.print Numerals.digits_from
request_run = refl

request_lem_example :
    (Client.is_done json (Client.request json bad_json (done teapot))
      ≡ Client.is_ok json teapot && (teapot.status == 204 || is_some teapot.body))
    × Client.HasMessage json (Client.request json bad_json (done teapot))
request_lem_example = request_lem json bad_json (done teapot) refl tt

-- The first reply says that nobody is signed in, and the login succeeds.
abbrev signing_in : Run (Gate.gate json bad_json)
signing_in = record { state = Gate.nobody; waiting = Gate.me ∷ [] }

signing_in_run : Reach (Gate.gate json bad_json) (Gate.first_render json bad_json) signing_in
unfolding Gate.is_offered Gate.react Gate.replied Gate.shown_for Client.fetch_me
signing_in_run =
    more (more here (reply [] [] Gate.me (done (record { status = 401; body = none })) refl refl))
      (act Gate.logged_in refl refl)

gate_opened_example :
    (Gate.is_loading json bad_json signing_in.state ≡ true → signing_in.waiting ≡ Gate.me ∷ [])
    × ((o : Reply (Client.Response json))
        → (Gate.is_signed_in json bad_json (Gate.replied json bad_json o signing_in.state)
            ≡ elim o [
              | failed m ↦ false
              | done r ↦ Client.is_ok json r && Client.is_given json r.body
            ])
          × (Gate.is_loading json bad_json (Gate.replied json bad_json o signing_in.state) ≡ false))
gate_opened_example = gate_opened json bad_json signing_in_run

-- Two toasts come, and the timer of the first fires after three seconds.
abbrev two : Toasts.State
two = Toasts.react Toasts.rendered (
    Toasts.react (Toasts.added (codes "b") Toasts.error)
      (Toasts.react (Toasts.added (codes "a") Toasts.success) Toasts.initial))

abbrev after_fire : Run Toasts.provider
after_fire = record {
  state = Toasts.react (Toasts.fired 0) (Toasts.react (Toasts.passed 3000) two);
  waiting = [];
}

after_fire_run : Reach Toasts.provider opened after_fire
unfolding Toasts.is_offered Toasts.react Toasts.add_toast Toasts.remove_toast
after_fire_run =
    more
      (more
        (more
          (more (more here (act (Toasts.added (codes "a") Toasts.success) refl refl))
            (act (Toasts.added (codes "b") Toasts.error) refl refl))
          (act Toasts.rendered refl refl))
        (act (Toasts.passed 3000) refl refl))
      (act (Toasts.fired 0) refl refl)

Reach-IsKeyed_example : IsKeyed after_fire.state
Reach-IsKeyed_example = Reach-IsKeyed after_fire_run
