-- ===== src/Agent/RpcSocket/Answered.antt =====
-- Every request of `JsonRpcSocket` (packages/agent/src/prototyping/clients/json-rpc-socket.ts) is answered or
-- times out.
use web5_js.Base.{
  ℕ, Text, codes, Option, none, some, List, [], ◌∷◌, Bool, true, false, if◌then◌else◌, ◌===◌,
  ===_iff, lookup, All, Any, Result, ok, starts_with, ◌≡◌, refl, sym, ap, subst, ◌∙◌, ◌⊎◌, inl, inr,
  Bool-cases,
}
use web5_js.Agent.RpcSocket.{
  Response, Outcome, resolved, timed_out, Handler, answers, listens, Call, Socket, SubscribeError,
  fresh_socket, find, settle, on_timeout, close_subscription, without, heard, handled, on_message,
  subscribe, subscribed, finish_subscribe, close,
}
use web5_js.Agent.RpcSocket.Steps.{
  Step, requests, subscribes, receives, fires, finishes, closes, Reaches, here, next,
}
use web5_js.Agent.RpcSocket.Settled.{
  IsCall, IsLive, IsTracked, IsTracked-without, IsTracked-listens, resolved_same, settled_now,
}
use web5_js.Agent.RpcSocket.Tracked.{
  IsTracked-settle, IsTracked-request, IsTracked-on_timeout, IsTracked-deliver,
  IsTracked-close_subscription,
}

IsTracked-heard :
    (e : Option Text) (uuid id : Text) (r : Response) (s : Socket)
    → IsTracked s
    → IsTracked (heard e uuid id r s)
IsTracked-heard none uuid id r s t = IsTracked-deliver id r s t
IsTracked-heard (some _) uuid id r s t =
    IsTracked-deliver id r (close_subscription uuid (without id s))
      (IsTracked-close_subscription uuid (without id s) (IsTracked-without s id t))

IsTracked-if :
    (b : Bool) (s u : Socket)
    → IsTracked u
    → (b ≡ true → IsTracked s)
    → IsTracked (if b then s else u)
IsTracked-if true s u h k = k refl
IsTracked-if false s u h k = h

IsTracked-handled :
    (h : Option Handler) (uuid : Text) (r : Response) (s : Socket)
    → IsTracked s
    → h ≡ lookup r.id s.handlers
    → IsTracked (handled h uuid r s)
unfolding handled
IsTracked-handled none uuid r s t e = t
IsTracked-handled (some (answers n id)) uuid r s t e = IsTracked-if (r.id === id) _ s t λ same.
    IsTracked-settle n (resolved r) (without id s) (IsTracked-without s id t) λ q f.
      subst (λ k. IsCall n k s.sent)
        (sym ((===_iff r.id id).0 same) ∙ ap (λ x. x.id) (resolved_same f))
        (t.asked r.id n id (sym e))
IsTracked-handled (some (listens id)) uuid r s t e =
    IsTracked-if (r.id === id) _ s t λ _. IsTracked-heard r.error uuid id r s t

IsTracked-on_message :
    (uuid : Text) (reply : Option Response) (s : Socket)
    → IsTracked s
    → IsTracked (on_message uuid reply s)
unfolding on_message
IsTracked-on_message uuid none s t = t
IsTracked-on_message uuid (some r) s t = IsTracked-handled (lookup r.id s.handlers) uuid r s t refl

IsTracked-subscribe :
    (id method : Text) (options : Option Text) (s s' : Socket)
    → IsTracked s
    → subscribe id method options s ≡ ok s'
    → IsTracked s'
unfolding subscribe
IsTracked-subscribe id method none s s' t h =
    elim (Bool-cases (starts_with (codes "rpc.subscribe.") method)) [
      | inl e ↦ cc (rw e at h)
      | inr e ↦ cc (rw e at h)
    ]
IsTracked-subscribe id method (some j) s s' t h =
    elim (Bool-cases (starts_with (codes "rpc.subscribe.") method)) [
      | inl e ↦
          subst IsTracked (ok_same (rw e at h))
            (IsTracked-request id method _ (IsTracked-listens s j t))
      | inr e ↦ cc (rw e at h)
    ]
  where
    ok_same : {a b : Socket} → ◌≡◌ {A = Result SubscribeError Socket} (ok a) (ok b) → a ≡ b
    ok_same f = cc

IsTracked-subscribed :
    (e : Option Text) (id : Text) (s : Socket) → IsTracked s → IsTracked (subscribed e id s)
IsTracked-subscribed none id s t = t
IsTracked-subscribed (some _) id s t = IsTracked-without s id t

IsTracked-finish_subscribe :
    (id : Text) (o : Outcome) (s : Socket) → IsTracked s → IsTracked (finish_subscribe id o s).1
unfolding finish_subscribe
IsTracked-finish_subscribe id timed_out s t = t
IsTracked-finish_subscribe id (resolved r) s t = IsTracked-subscribed r.error id s t

IsTracked-Step : (s u : Socket) → IsTracked s → Step s u → IsTracked u
unfolding close
IsTracked-Step s _ t (requests id method) = IsTracked-request id method s t
IsTracked-Step s u t (subscribes id method options h) =
    IsTracked-subscribe id method options s u t h
IsTracked-Step s _ t (receives uuid reply) = IsTracked-on_message uuid reply s t
IsTracked-Step s _ t (fires n id _) = IsTracked-on_timeout n id s t
IsTracked-Step s _ t (finishes n id o _) = IsTracked-finish_subscribe id o s t
IsTracked-Step s _ t (closes uuid id) =
    IsTracked-close_subscription uuid (without id s) (IsTracked-without s id t)

-- In every state that a new socket reaches, a promise that was resolved has the response with the ID of its
-- request, and a promise that is not settled has its timer running.
pub Reaches-IsTracked : (s : Socket) → Reaches fresh_socket s → IsTracked s
unfolding lookup find
Reaches-IsTracked _ here = record {
  live = tt;
  numbered = tt;
  asked = λ k n id e. cc;
  right = λ n r e. cc;
}
Reaches-IsTracked _ (next {t = t} {u = u} h step) = IsTracked-Step t u (Reaches-IsTracked t h) step

-- The promise of a request in a state that a new socket reaches is settled, or its timer runs and
-- settles it when it fires.
pub request-Settles :
    (s : Socket) (c : Call)
    → Reaches fresh_socket s
    → Any (λ x. x ≡ c) s.sent
    → ((o : Outcome) × (find c.number s.settled ≡ some o))
      ⊎ ((find c.number s.timers ≡ some c.id)
          × ((o : Outcome) × (find c.number (on_timeout c.number c.id s).settled ≡ some o)))
unfolding on_timeout settle
request-Settles s c h k =
    elim (at_call (IsLive s.settled s.timers) s.sent (Reaches-IsTracked s h).live k) [
      | inl settled ↦ inl settled
      | inr e ↦ inr (e, settled_now c.number timed_out s.settled)
    ]
  where
    at_call : (P : Call → Type 0) {c : Call} (l : List Call) → All P l → Any (λ x. x ≡ c) l → P c
    at_call P [] p k = elim k [ ]
    at_call P (x ∷ l) (p, ps) (inl e) = subst P e p
    at_call P (x ∷ l) (p, ps) (inr k) = at_call P l ps k

-- A promise that was resolved in a state that a new socket reaches has the response to a request with its
-- number: the ID of the response is that of the request.
pub resolved-IsCall :
    (s : Socket) (n : ℕ) (r : Response)
    → Reaches fresh_socket s
    → find n s.settled ≡ some (resolved r)
    → IsCall n r.id s.sent
resolved-IsCall s n r h e = (Reaches-IsTracked s h).right n r e
