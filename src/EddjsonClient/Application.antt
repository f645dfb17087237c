-- ===== src/EddjsonClient/Application.antt =====
-- What the rounds of common/eddjson_client.c keep: the invariant of the connection, and whatever the
-- application's handler keeps of its own state.
use pico_deck_eddiscovery.Base.{
  ℕ, ◌≡◌, refl, sym, ap, subst, Bool, Option, none, some, List, [], ◌∷◌, Bytes, arith, take,
}
use pico_deck_eddiscovery.WebSocket.Types.{Platform, Client, now_ms}
use pico_deck_eddiscovery.WebSocket.Client.{task, send_text, request_reconnect}
use pico_deck_eddiscovery.WebSocket.Validity.{IsValid}
use pico_deck_eddiscovery.WebSocket.Reach.{Step-IsValid, polled, reconnect, send_text-IsValid}
use pico_deck_eddiscovery.WebSocket.Application.{
  AppKeeps, task-app, schedule_retry-app, send_text-app,
}
use pico_deck_eddiscovery.EddjsonClient.{
  Eddjson, send_requests, start_requests, on_websocket_opened, eddjson_callbacks, periodic,
  eddjson_task,
}
use pico_deck_eddiscovery.EddjsonClient.Reach.{eddjson-OpenedKeeps}

module _ {W A : Type 0} (p : Platform W) (handler : Bytes → A → A) where
  periodic-IsValid :
      (o : Option Bytes) (now : ℕ) (c : Client W (Eddjson A))
      → IsValid p c
      → IsValid p (periodic p o now c)
  unfolding periodic
  periodic-IsValid none now c v = v
  periodic-IsValid (some request) now c v = ground (
    arith,
    send_text-IsValid p (some request) c v,
    reconnect-IsValid (send_text p (some request) c).1 (send_text-IsValid p (some request) c v),
  )
    where
      reconnect-IsValid :
          (d : Client W (Eddjson A)) → IsValid p d → IsValid p (request_reconnect p d)
      reconnect-IsValid d w =
          Step-IsValid p (eddjson_callbacks p handler) (eddjson-OpenedKeeps p handler) (reconnect d)
            w

  -- A round of the client keeps the invariant of its connection.
  pub eddjson_task-IsValid :
      (ready : Bool) (c : Client W (Eddjson A)) → IsValid p c → IsValid p (eddjson_task p ready c)
  unfolding eddjson_task
  eddjson_task-IsValid ready c v = ground (
    arith,
    polled-IsValid,
    periodic-IsValid (task p ready c).app.config.periodic_request (now_ms p (task p ready c).world)
        (task p ready c) polled-IsValid,
  )
    where
      polled-IsValid : IsValid p (task p ready c)
      polled-IsValid =
          Step-IsValid p (eddjson_callbacks p handler) (eddjson-OpenedKeeps p handler)
            (polled ready c) v

  periodic-application :
      (o : Option Bytes) (now : ℕ) (c : Client W (Eddjson A))
      → (periodic p o now c).app.application ≡ c.app.application
  unfolding periodic request_reconnect
  periodic-application none now c = refl
  periodic-application (some request) now c = ground (
    arith,
    send_text-app p (some request) c,
    ap (λ a. a.application) (send_text-app p (some request) c),
    ap (λ a. a.application) (schedule_retry-app p (send_text p (some request) c).1),
  )

  -- A round of the client leaves the application's state as it is.
  pub eddjson_task-application :
      (ready : Bool) (c : Client W (Eddjson A))
      → (eddjson_task p ready c).app.application ≡ c.app.application
  unfolding eddjson_task
  eddjson_task-application ready c = ground (
    arith,
    ap (λ a. a.application) (task-app p ready c),
    periodic-application (task p ready c).app.config.periodic_request
        (now_ms p (task p ready c).world) (task p ready c),
  )

  send_requests-application :
      (requests : List (Option Bytes)) (c : Client W (Eddjson A))
      → (send_requests p requests c).1.app.application ≡ c.app.application
  unfolding send_requests
  send_requests-application [] c = refl
  send_requests-application (none ∷ rest) c = send_requests-application rest c
  send_requests-application (some request ∷ rest) c = ground (
    arith,
    ap (λ a. a.application) (send_text-app p (some request) c),
    send_requests-application rest (send_text p (some request) c).1,
  )

  start_requests-application :
      (o : Option (List (Option Bytes))) (count : ℕ) (c : Client W (Eddjson A))
      → (start_requests p o count c).1.app.application ≡ c.app.application
  unfolding start_requests
  start_requests-application none count c = ground arith
  start_requests-application (some requests) count c =
      ground (arith, send_requests-application (take count requests) c)

  on_websocket_opened-application :
      (c : Client W (Eddjson A)) → (on_websocket_opened p c).1.app.application ≡ c.app.application
  unfolding on_websocket_opened
  on_websocket_opened-application c =
      start_requests-application c.app.config.initial_requests c.app.config.initial_request_count c

  -- Of the two callbacks, only the handler changes the application's state.
  pub eddjson_callbacks-AppKeeps :
      (P : A → Type 0)
      → ((text : Bytes) (a : A) → P a → P (handler text a))
      → AppKeeps (λ e. P e.application) (eddjson_callbacks p handler)
  eddjson_callbacks-AppKeeps P keeps = record {
    by_message = λ f e text a h. subst (After text a) e (keeps text a.application h);
    by_opened = λ g e c h. subst (Opened c) e (subst P (sym (on_websocket_opened-application c)) h);
  }
    where
      After : Bytes → Eddjson A → Option (Bytes → Eddjson A → Eddjson A) → Type 0
      After text a none = Bool
      After text a (some f) = P (f text a).application

      Opened :
          Client W (Eddjson A)
          → Option (Client W (Eddjson A) → Bool × Client W (Eddjson A))
          → Type 0
      Opened c none = Bool
      Opened c (some g) = P (g c).1.app.application
