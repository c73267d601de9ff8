-- ===== src/Modem/Service.antt =====
-- services/modem_access/mod.rs: `ModemAccessService`, the queue before a modem. A request has the
-- number of its client's reply channel. `S` is the state of the modem.
use uswarm_unitctl.Base.{
  ℕ, ◌≡◌, refl, ap, Bool, true, false, List, [], ◌∷◌, ◌++◌, Text, codes, text_eq, if◌then◌else◌,
  Result, ok, err,
}
use uswarm_unitctl.Handlers.Modem.{ModemError, dbus, timeout}
use uswarm_unitctl.Modem.Types.{NetworkRegistration}
use uswarm_unitctl.Modem.Access.{ModemAccess, Answer}

pub data ModemRequest : Type 0 where
  model_request : ModemRequest
  command_request : Text → ℕ → ModemRequest
  imsi_request : ModemRequest
  registration_request : ModemRequest

pub data ModemReply : Type 0 where
  text_reply : Result Text ModemError → ModemReply
  status_reply : Result NetworkRegistration ModemError → ModemReply

-- What `start` puts behind the queue, for the `modem_type` of the configuration: the fake modem or one
-- that the discovery found. `debug` is `{:?}` of a text.
pub data Backend (M : Type 0) : Type 0 where
  fake_backend : Backend M
  dbus_backend : M → Backend M

abbrev as_backend : {M : Type 0} → Result M ModemError → Result (Backend M) ModemError
as_backend (ok modem) = ok (dbus_backend modem)
as_backend (err e) = err e

unfoldable pub start :
    {M : Type 0} → (Text → Text) → Text → Result M ModemError → Result (Backend M) ModemError
start debug modem_type discovered =
    if text_eq modem_type (codes "fake")
    then ok fake_backend
    else if text_eq modem_type (codes "dbus")
    then as_backend discovered
    else err (
        dbus (
          codes "unknown modem_type "
          ++ (debug modem_type ++ codes " (config validation should have prevented this)")))

-- What the `select!` of the worker takes next.
pub data WorkerEvent : Type 0 where
  received : ℕ → ModemRequest → WorkerEvent
  channel_closed : WorkerEvent
  cancelled : WorkerEvent

module _ {S : Type 0} where
  abbrev as_text : Answer Text S → ModemReply × S
  as_text (r, s) = (text_reply r, s)

  abbrev as_status : Answer NetworkRegistration S → ModemReply × S
  as_status (r, s) = (status_reply r, s)

  unfoldable pub handle_request : ModemAccess S → ModemRequest → S → ModemReply × S
  handle_request modem model_request s = as_text (modem.model s)
  handle_request modem (command_request cmd timeout_ms) s = as_text (modem.command cmd timeout_ms s)
  handle_request modem imsi_request s = as_text (modem.imsi s)
  handle_request modem registration_request s = as_status (modem.registration_status s)

  -- `worker_loop`: the replies that it sends, with their channels, and the modem it leaves.
  unfoldable pub worker_loop : ModemAccess S → List WorkerEvent → S → List (ℕ × ModemReply) × S
  unfolding handle_request
  worker_loop modem [] s = ([], s)
  worker_loop modem (channel_closed ∷ events) s = ([], s)
  worker_loop modem (cancelled ∷ events) s = ([], s)
  worker_loop modem (received client request ∷ events) s =
      let (reply, s') = handle_request modem request s in
      let (replies, s'') = worker_loop modem events s' in ((client, reply) ∷ replies, s'')

-- The end of the wait for a reply: it came, its channel was dropped, or 30 seconds have passed.
pub data Wait (T : Type 0) : Type 0 where
  replied : T → Wait T
  dropped : Wait T
  elapsed : Wait T

-- `ModemAccessService::request`; `is_open` says whether the worker still has its end of the queue.
unfoldable pub request : {T : Type 0} → Bool → Wait (Result T ModemError) → Result T ModemError
request false wait = err (dbus (codes "modem service shut down"))
request true (replied result) = result
request true dropped = err (dbus (codes "modem worker dropped reply"))
request true elapsed = err timeout

-- The requests up to the end of the worker.
abbrev pub accepted : List WorkerEvent → List (ℕ × ModemRequest)
accepted [] = []
accepted (channel_closed ∷ events) = []
accepted (cancelled ∷ events) = []
accepted (received client request ∷ events) = (client, request) ∷ accepted events

module _ {S : Type 0} where
  -- Calls of the modem itself, one after the other.
  abbrev pub direct : ModemAccess S → List (ℕ × ModemRequest) → S → List (ℕ × ModemReply)
  direct modem [] s = []
  direct modem ((client, request) ∷ rest) s =
      (client, (handle_request modem request s).0)
      ∷ direct modem rest (handle_request modem request s).1

  -- The worker answers the requests that it takes before its end, each once, to its client and in
  -- their order, and each as the modem answers it in the state that the ones before have left.
  pub worker_loop-direct :
      (modem : ModemAccess S) (events : List WorkerEvent) (s : S)
      → (worker_loop modem events s).0 ≡ direct modem (accepted events) s
  unfolding worker_loop
  worker_loop-direct modem [] s = refl
  worker_loop-direct modem (channel_closed ∷ events) s = refl
  worker_loop-direct modem (cancelled ∷ events) s = refl
  worker_loop-direct modem (received client request ∷ events) s =
      ap (λ rest. (client, (handle_request modem request s).0) ∷ rest)
        (worker_loop-direct modem events (handle_request modem request s).1)
