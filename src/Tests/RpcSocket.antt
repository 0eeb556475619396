-- ===== src/Tests/RpcSocket.antt =====
-- The theorems about `JsonRpcSocket` of packages/agent/src/prototyping/clients/json-rpc-socket.ts at concrete
-- inputs.
use web5_js.Base.{
  Text, codes, none, some, [], ◌===◌, lookup, insert, remove, Any, ◌≡◌, refl, ◌⊎◌, inl,
}
use web5_js.Agent.RpcSocket.{
  Response, Outcome, resolved, Call, Socket, fresh_socket, find, settle, request, on_timeout,
  handled, on_message,
}
use web5_js.Agent.RpcSocket.Steps.{requests, receives, Reaches, here, next}
use web5_js.Agent.RpcSocket.Settled.{IsCall}
use web5_js.Agent.RpcSocket.Answered.{request-Settles, resolved-IsCall}

abbrev id : Text
id = codes "7"

abbrev method : Text
method = codes "dwn.processMessage"

abbrev asked : Socket
asked = request id method fresh_socket

abbrev reply : Response
reply = record { id = id; error = none; result = codes "ok" }

abbrev answered : Socket
answered = on_message [] (some reply) asked

asked-Reaches : Reaches fresh_socket asked
asked-Reaches = next here (requests id method)

answered-Reaches : Reaches fresh_socket answered
answered-Reaches = next asked-Reaches (receives [] (some reply))

abbrev first_call : Call
first_call = record { number = 0; id = id; method = method }

is_sent : Any (λ x. x ≡ first_call) asked.sent
unfolding request
is_sent = inl refl

request-Settles_example :
    ((o : Outcome) × (find first_call.number asked.settled ≡ some o))
    ⊎ ((find first_call.number asked.timers ≡ some first_call.id)
        × ((o : Outcome) × (find first_call.number
                (on_timeout first_call.number first_call.id asked).settled
              ≡ some o)))
request-Settles_example = request-Settles asked first_call asked-Reaches is_sent

is_resolved : find 0 answered.settled ≡ some (resolved reply)
unfolding on_message handled request settle find lookup insert remove ◌===◌
is_resolved = refl

resolved-IsCall_example : IsCall 0 reply.id answered.sent
resolved-IsCall_example = resolved-IsCall answered 0 reply answered-Reaches is_resolved
