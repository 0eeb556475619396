-- ===== src/Agent/RpcSocket/Lasting.antt =====
-- What is settled stays so, and what `connect` waits for, in `JsonRpcSocket`
-- (packages/agent/src/prototyping/clients/json-rpc-socket.ts).
use web5_js.Base.{
  ℕ, Text, codes, Option, none, some, List, [], ◌∷◌, Bool, true, false, if◌then◌else◌, ◌===◌,
  lookup, Result, ok, starts_with, ◌≡◌, refl, subst, Bool-cases, inl, inr,
}
use web5_js.Agent.RpcSocket.{
  Response, Outcome, resolved, timed_out, Handler, answers, listens, Socket, SubscribeError, find,
  settle, request, on_timeout, close_subscription, without, heard, handled, on_message, subscribe,
  subscribed, finish_subscribe, close, ConnectEvent, opened, failed, connect_timeout, connect_step,
  connect,
}
use web5_js.Agent.RpcSocket.Steps.{Step, requests, subscribes, receives, fires, finishes, closes}
use web5_js.Agent.RpcSocket.Settled.{find-settled_with}

module _ (n : ℕ) (o : Outcome) where
  abbrev Has : Socket → Type 0
  Has s = find n s.settled ≡ some o

  settle-Has : (m : ℕ) (p : Outcome) (s : Socket) → Has s → Has (settle m p s)
  unfolding settle
  settle-Has m p s h = find-settled_with m n p o s.settled h

  heard-Has :
      (e : Option Text) (uuid id : Text) (r : Response) (s : Socket)
      → Has s
      → Has (heard e uuid id r s)
  unfolding close_subscription request
  heard-Has none uuid id r s h = h
  heard-Has (some _) uuid id r s h = h

  if-Has : (b : Bool) (s u : Socket) → Has s → Has u → Has (if b then s else u)
  if-Has true s u h k = h
  if-Has false s u h k = k

  handled-Has :
      (x : Option Handler) (uuid : Text) (r : Response) (s : Socket)
      → Has s
      → Has (handled x uuid r s)
  unfolding handled
  handled-Has none uuid r s h = h
  handled-Has (some (answers m id)) uuid r s h =
      if-Has (r.id === id) _ s (settle-Has m (resolved r) (without id s) h) h
  handled-Has (some (listens id)) uuid r s h =
      if-Has (r.id === id) _ s (heard-Has r.error uuid id r s h) h

  on_message-Has :
      (uuid : Text) (reply : Option Response) (s : Socket) → Has s → Has (on_message uuid reply s)
  unfolding on_message
  on_message-Has uuid none s h = h
  on_message-Has uuid (some r) s h = handled-Has (lookup r.id s.handlers) uuid r s h

  subscribe-Has :
      (id method : Text) (options : Option Text) (s u : Socket)
      → Has s
      → subscribe id method options s ≡ ok u
      → Has u
  unfolding subscribe request
  subscribe-Has id method none s u h e =
      elim (Bool-cases (starts_with (codes "rpc.subscribe.") method)) [
        | inl f ↦ cc (rw f at e)
        | inr f ↦ cc (rw f at e)
      ]
  subscribe-Has id method (some j) s u h e =
      elim (Bool-cases (starts_with (codes "rpc.subscribe.") method)) [
        | inl f ↦ subst Has (ok_same (rw f at e)) h
        | inr f ↦ cc (rw f at e)
      ]
    where
      ok_same : {a b : Socket} → ◌≡◌ {A = Result SubscribeError Socket} (ok a) (ok b) → a ≡ b
      ok_same g = cc

  finish_subscribe-Has :
      (id : Text) (p : Outcome) (s : Socket) → Has s → Has (finish_subscribe id p s).1
  unfolding finish_subscribe
  finish_subscribe-Has id timed_out s h = h
  finish_subscribe-Has id (resolved r) s h = subscribed-Has r.error
    where
      subscribed-Has : (e : Option Text) → Has (subscribed e id s)
      subscribed-Has none = h
      subscribed-Has (some _) = h

  -- No step changes how a promise was settled: a response after the timeout, or a timer after the
  -- response, does nothing to it.
  pub Step-settled :
      (s u : Socket) → Step s u → find n s.settled ≡ some o → find n u.settled ≡ some o
  unfolding close close_subscription request on_timeout
  Step-settled s _ (requests id method) h = h
  Step-settled s u (subscribes id method options e) h = subscribe-Has id method options s u h e
  Step-settled s _ (receives uuid reply) h = on_message-Has uuid reply s h
  Step-settled s _ (fires m id _) h = settle-Has m timed_out _ h
  Step-settled s _ (finishes m id p _) h = finish_subscribe-Has id p s h
  Step-settled s _ (closes uuid id) h = h

-- The events without the timer of `connect`
abbrev pub untimed : List ConnectEvent → List ConnectEvent
untimed [] = []
untimed (opened ∷ es) = opened ∷ untimed es
untimed (failed ∷ es) = failed ∷ untimed es
untimed (connect_timeout ∷ es) = untimed es

-- The timer of `connect` changes nothing: the promise is settled by the other events, and without one of
-- them it is pending for ever.
pub connect-untimed :
    (es : List ConnectEvent) (p : Option Bool) → connect es p ≡ connect (untimed es) p
unfolding connect connect_step
connect-untimed [] p = refl
connect-untimed (opened ∷ es) p = connect-untimed es (connect_step opened p)
connect-untimed (failed ∷ es) p = connect-untimed es (connect_step failed p)
connect-untimed (connect_timeout ∷ es) p = connect-untimed es p
