-- ===== src/Agent/RpcSocket.antt =====
-- `JsonRpcSocket` of packages/agent/src/prototyping/clients/json-rpc-socket.ts: requests and subscriptions over
-- one WebSocket. IDs are strings, as the code of the repository makes them.
pub mod Steps
pub mod Settled
pub mod Tracked
pub mod Answered
pub mod Lasting
use web5_js.Base.{
  ℕ, Text, codes, Option, none, some, List, [], ◌∷◌, ◌++◌, Bool, true, false, not, if◌then◌else◌,
  length, ◌==◌, ◌===◌, starts_with, lookup, insert, remove, Result, ok, err,
}

pub record Response : Type 0 where
  pub id : Text
  pub error : Option Text
  pub result : Text

-- How the promise of a request may be settled
pub data Outcome : Type 0 where
  resolved : Response → Outcome
  timed_out : Outcome

-- A message handler: `handleResponse` of a request with its number and its ID, or `socketEventListener` of a
-- subscription with the ID
pub data Handler : Type 0 where
  answers : ℕ → Text → Handler
  listens : Text → Handler

-- A request that was sent, the number of its promise, its ID and its method
pub record Call : Type 0 where
  pub number : ℕ
  pub id : Text
  pub method : Text

pub data SubscribeError : Type 0 where
  no_prefix no_options request_failed : SubscribeError

-- The handlers, the timers that run, the promises that are settled, and what went to the socket and to the
-- listeners. Promises are numbered in the order of their requests.
pub record Socket : Type 0 where
  pub handlers : List (Text × Handler)
  pub timers : List (ℕ × Text)
  pub settled : List (ℕ × Outcome)
  pub sent : List Call
  pub delivered : List (Text × Response)

abbrev pub fresh_socket : Socket
fresh_socket = record { handlers = []; timers = []; settled = []; sent = []; delivered = [] }

unfoldable pub find : {A : Type 0} → ℕ → List (ℕ × A) → Option A
find n [] = none
find n ((m, a) ∷ l) = if m == n then some a else find n l

abbrev pub settled_with : Option Outcome → ℕ → Outcome → List (ℕ × Outcome) → List (ℕ × Outcome)
settled_with none n o l = (n, o) ∷ l
settled_with (some _) n o l = l

-- The promise of the number `n` is settled at most once.
unfoldable pub settle : ℕ → Outcome → Socket → Socket
settle n o s = record s { settled = settled_with (find n s.settled) n o s.settled }

-- `request`, up to the end of the executor of its promise. The ID is that of the request, or a random UUID
-- where it has none.
unfoldable pub request : Text → Text → Socket → Socket
request id method s = record s {
  handlers = insert id (answers (length s.sent) id) s.handlers;
  sent = record { number = length s.sent; id = id; method = method } ∷ s.sent;
  timers = (length s.sent, id) ∷ s.timers;
}

unfoldable pub drop_timer : ℕ → List (ℕ × Text) → List (ℕ × Text)
drop_timer n [] = []
drop_timer n ((m, id) ∷ l) = if m == n then drop_timer n l else (m, id) ∷ drop_timer n l

-- The callback of `setTimeout` of the request with the number `n`
unfoldable pub on_timeout : ℕ → Text → Socket → Socket
on_timeout n id s =
    settle n timed_out
      (record s { handlers = remove id s.handlers; timers = drop_timer n s.timers })

unfoldable pub close_subscription : Text → Socket → Socket
close_subscription uuid s = request uuid (codes "rpc.subscribe.close") s

abbrev pub deliver : Text → Response → Socket → Socket
deliver subscription r s = record s { delivered = (subscription, r) ∷ s.delivered }

abbrev pub without : Text → Socket → Socket
without id s = record s { handlers = remove id s.handlers }

abbrev pub heard : Option Text → Text → Text → Response → Socket → Socket
heard none uuid subscription r s = deliver subscription r s
heard (some _) uuid subscription r s =
    deliver subscription r (close_subscription uuid (without subscription s))

-- The call of the handler; `uuid` is the ID of the request that it may make.
unfoldable pub handled : Option Handler → Text → Response → Socket → Socket
handled none uuid r s = s
handled (some (answers n id)) uuid r s =
    if r.id === id then settle n (resolved r) (without id s) else s
handled (some (listens subscription)) uuid r s =
    if r.id === subscription then heard r.error uuid subscription r s else s

-- The listener of `message`; `none` is a text that is no JSON, on which it throws.
unfoldable pub on_message : Text → Option Response → Socket → Socket
on_message uuid none s = s
on_message uuid (some r) s = handled (lookup r.id s.handlers) uuid r s

abbrev pub subscribe_with : Text → Text → Option Text → Socket → Result SubscribeError Socket
subscribe_with id method none s = err no_options
subscribe_with id method (some subscription) s = ok (
    request id method
      (record s { handlers = insert subscription (listens subscription) s.handlers }))

-- `subscribe`, up to the wait for the response; the options are the ID of the subscription.
unfoldable pub subscribe : Text → Text → Option Text → Socket → Result SubscribeError Socket
subscribe id method options s =
    if starts_with (codes "rpc.subscribe.") method
    then subscribe_with id method options s
    else err no_prefix

abbrev pub subscribed : Option Text → Text → Socket → Socket
subscribed none subscription s = s
subscribed (some _) subscription s = without subscription s

-- The rest of `subscribe`: the response, or the throw of the request that was not answered
unfoldable pub finish_subscribe : Text → Outcome → Socket → Result SubscribeError Response × Socket
finish_subscribe subscription timed_out s = (err request_failed, s)
finish_subscribe subscription (resolved r) s = (ok r, subscribed r.error subscription s)

-- The function `close` that `subscribe` returns
unfoldable pub close : Text → Text → Socket → Socket
close uuid subscription s = close_subscription uuid (without subscription s)

-- What happens to a socket while `connect` waits, and what the promise of `connect` is then
pub data ConnectEvent : Type 0 where
  opened failed connect_timeout : ConnectEvent

abbrev pub first_outcome : Option Bool → Bool → Option Bool
first_outcome none b = some b
first_outcome (some a) b = some a

-- The timer of `connect` names `reject` and does not call it.
unfoldable pub connect_step : ConnectEvent → Option Bool → Option Bool
connect_step opened p = first_outcome p true
connect_step failed p = first_outcome p false
connect_step connect_timeout p = p

-- `none` is a promise that is pending.
unfoldable pub connect : List ConnectEvent → Option Bool → Option Bool
connect [] p = p
connect (e ∷ es) p = connect es (connect_step e p)
