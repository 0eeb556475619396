-- ===== src/Agent/RpcSocket/Steps.antt =====
-- The steps of `JsonRpcSocket` (packages/agent/src/prototyping/clients/json-rpc-socket.ts), in any order.
use web5_js.Base.{ℕ, Text, Option, some, ok, ◌≡◌}
use web5_js.Agent.RpcSocket.{
  Response, Outcome, Socket, find, request, on_timeout, on_message, subscribe, finish_subscribe,
  close,
}

pub data Step (s : Socket) : Socket → Type 0 where
  requests : (id method : Text) → Step s (request id method s)
  subscribes :
      {s' : Socket} (id method : Text) (options : Option Text)
      → subscribe id method options s ≡ ok s'
      → Step s s'
  receives : (uuid : Text) (reply : Option Response) → Step s (on_message uuid reply s)
  -- a timer that runs
  fires : (n : ℕ) (id : Text) → find n s.timers ≡ some id → Step s (on_timeout n id s)
  -- the response that `subscribe` waits for
  finishes :
      (n : ℕ) (subscription : Text) (o : Outcome)
      → find n s.settled ≡ some o
      → Step s (finish_subscribe subscription o s).1
  closes : (uuid subscription : Text) → Step s (close uuid subscription s)

pub data Reaches (s : Socket) : Socket → Type 0 where
  here : Reaches s s
  next : {t u : Socket} → Reaches s t → Step t u → Reaches s u
