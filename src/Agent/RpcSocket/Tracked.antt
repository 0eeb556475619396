-- ===== src/Agent/RpcSocket/Tracked.antt =====
-- What each change of the state of `JsonRpcSocket`
-- (packages/agent/src/prototyping/clients/json-rpc-socket.ts) keeps.
use web5_js.Base.{
  ℕ, suc, Text, some, List, [], ◌∷◌, false, length, ◌==◌, ==_iff, ◌===◌, ◌<◌, lookup-insert, All,
  All-map, ◌≡◌, subst, ◌∙◌, inl, inr, arith, Bool-cases,
}
use web5_js.Agent.RpcSocket.{
  Response, Outcome, resolved, timed_out, answers, Call, Socket, find, settle, settled_with,
  request, on_timeout, close_subscription, deliver,
}
use web5_js.Agent.RpcSocket.Settled.{
  IsCall, IsLive, IsTracked, IsTracked-without, some_same, answers_same, find-first, find-later,
  find-settled_with, settled_now, settled_before, find-drop_timer,
}

pub IsTracked-settle :
    (n : ℕ) (o : Outcome) (s : Socket)
    → IsTracked s
    → ((r : Response) → o ≡ resolved r → IsCall n r.id s.sent)
    → IsTracked (settle n o s)
unfolding settle
IsTracked-settle n o s t h = record {
  live =
      All-map _
        (λ c l. elim l [
          | inl (p, e) ↦ inl (p, find-settled_with n c.number o p s.settled e)
          | inr e ↦ inr e
        ])
        s.sent t.live;
  numbered = t.numbered;
  asked = t.asked;
  right = λ m r e. elim (settled_before n m o (resolved r) s.settled e) [
    | inl f ↦ t.right m r f
    | inr (f, g) ↦ subst (λ k. IsCall k r.id s.sent) f (h r g)
  ];
}

pub below_other : (a b : ℕ) → a < b → (b == a) ≡ false
below_other a b h = ground arith

pub IsTracked-request :
    (id method : Text) (s : Socket) → IsTracked s → IsTracked (request id method s)
unfolding request
IsTracked-request id method s t = record {
  live = (
    inr (find-first (length s.sent) id s.timers),
    All-map _
        (λ c (l, lt). elim l [
          | inl settled ↦ inl settled
          | inr e ↦ inr (
              find-later c.number (length s.sent) id s.timers
                (below_other c.number (length s.sent) lt)
              ∙ e)
        ])
        s.sent
        (both (IsLive s.settled s.timers) (λ c. c.number < length s.sent) s.sent t.live t.numbered),
  );
  numbered =
      (omega arith, All-map _ (λ c lt. weaker c.number (length s.sent) lt) s.sent t.numbered);
  asked = λ k n j e. elim (Bool-cases (id === k)) [
    | inl f ↦ inl (
        answers_same
          (some_same (rw (lookup-insert id k (answers (length s.sent) id) s.handlers, f) at e)))
    | inr f ↦
        inr
          (t.asked k n j (rw (lookup-insert id k (answers (length s.sent) id) s.handlers, f) at e))
  ];
  right = λ n r e. inr (t.right n r e);
}
  where
    weaker : (a b : ℕ) → a < b → a < suc b
    weaker a b h = omega arith

    both : (P Q : Call → Type 0) (l : List Call) → All P l → All Q l → All (λ c. P c × Q c) l
    both P Q [] p q = tt
    both P Q (c ∷ l) (p, ps) (q, qs) = ((p, q), both P Q l ps qs)

pub IsTracked-on_timeout :
    (n : ℕ) (id : Text) (s : Socket) → IsTracked s → IsTracked (on_timeout n id s)
unfolding on_timeout settle
IsTracked-on_timeout n id s t =
    let u = IsTracked-without s id t in
    record {
      live =
          All-map _
            (λ c l. elim l [
              | inl (p, e) ↦ inl (p, find-settled_with n c.number timed_out p s.settled e)
              | inr e ↦ elim (Bool-cases (n == c.number)) [
                | inl f ↦ inl (
                    subst
                      (λ k.
                        (p : Outcome) × (find k
                            (settled_with (find n s.settled) n timed_out s.settled)
                          ≡ some p))
                      ((==_iff n c.number).0 f) (settled_now n timed_out s.settled))
                | inr f ↦ inr (find-drop_timer n c.number s.timers f ∙ e)
              ]
            ])
            s.sent t.live;
      numbered = t.numbered;
      asked = u.asked;
      right = λ m r e. elim (settled_before n m timed_out (resolved r) s.settled e) [
        | inl f ↦ t.right m r f
        | inr (_, g) ↦ cc
      ];
    }

pub IsTracked-deliver :
    (id : Text) (r : Response) (s : Socket) → IsTracked s → IsTracked (deliver id r s)
IsTracked-deliver id r s t = record {
  live = t.live;
  numbered = t.numbered;
  asked = t.asked;
  right = t.right;
}

pub IsTracked-close_subscription :
    (uuid : Text) (s : Socket) → IsTracked s → IsTracked (close_subscription uuid s)
unfolding close_subscription
IsTracked-close_subscription uuid s t = IsTracked-request uuid _ s t
