-- ===== src/Agent/RpcSocket/Settled.antt =====
-- The promises of the requests of `JsonRpcSocket`
-- (packages/agent/src/prototyping/clients/json-rpc-socket.ts).
use web5_js.Base.{
  ℕ, Text, none, some, List, [], ◌∷◌, false, if◌then◌else◌, length, ◌==◌, ==_iff, ◌===◌, ◌<◌,
  lookup, insert, remove, lookup-insert, lookup-remove, All, Any, ◌≡◌, refl, sym, ap, ◌∙◌, ◌⊎◌, inl,
  inr, arith, Bool-cases, Option-cases,
}
use web5_js.Agent.RpcSocket.{
  Response, Outcome, resolved, Handler, answers, listens, Call, Socket, find, settled_with,
  drop_timer, without,
}

-- Some request that was sent has the number and the ID.
abbrev pub IsCall : ℕ → Text → List Call → Type 0
IsCall n id = Any (λ c. (c.number ≡ n) × (c.id ≡ id))

-- The promise of a request is settled, or its timer runs.
abbrev pub IsLive : List (ℕ × Outcome) → List (ℕ × Text) → Call → Type 0
IsLive settled timers c =
    ((o : Outcome) × (find c.number settled ≡ some o)) ⊎ (find c.number timers ≡ some c.id)

pub record IsTracked (s : Socket) : Type 0 where
  pub live : All (IsLive s.settled s.timers) s.sent
  pub numbered : All (λ c. c.number < length s.sent) s.sent
  pub asked :
      (k : Text) (n : ℕ) (id : Text)
      → lookup k s.handlers ≡ some (answers n id)
      → IsCall n id s.sent
  pub right : (n : ℕ) (r : Response) → find n s.settled ≡ some (resolved r) → IsCall n r.id s.sent

pub some_same : {A : Type 0} {a b : A} → some a ≡ some b → a ≡ b
some_same h = cc

pub answers_same : {n m : ℕ} {a b : Text} → answers n a ≡ answers m b → (n ≡ m) × (a ≡ b)
answers_same h = (cc, cc)

pub resolved_same : {r q : Response} → resolved r ≡ resolved q → r ≡ q
resolved_same h = cc

pub find-first : {A : Type 0} (n : ℕ) (a : A) (l : List (ℕ × A)) → find n ((n, a) ∷ l) ≡ some a
unfolding find
find-first n a l = ground arith

pub find-later :
    {A : Type 0} (n m : ℕ) (a : A) (l : List (ℕ × A))
    → (m == n) ≡ false
    → find n ((m, a) ∷ l) ≡ find n l
unfolding find
find-later n m a l h = rw h refl

-- What is settled stays so.
pub find-settled_with :
    (n m : ℕ) (o p : Outcome) (l : List (ℕ × Outcome))
    → find m l ≡ some p
    → find m (settled_with (find n l) n o l) ≡ some p
find-settled_with n m o p l h = elim (Option-cases (find n l)) [
  | inr (q, e) ↦ rw e h
  | inl e ↦ rw e (elim (Bool-cases (n == m)) [
    | inl f ↦ elim (none_is_some (sym e ∙ ap (λ k. find k l) ((==_iff n m).0 f) ∙ h)) [ ]
    | inr f ↦ find-later m n o l f ∙ h
  ])
]
  where
    none_is_some : none ≡ some p → ⊥
    none_is_some h = cc

-- `settle` leaves the promise settled.
pub settled_now :
    (n : ℕ) (o : Outcome) (l : List (ℕ × Outcome))
    → (p : Outcome) × (find n (settled_with (find n l) n o l) ≡ some p)
settled_now n o l = elim (Option-cases (find n l)) [
  | inl e ↦ (o, rw e (find-first n o l))
  | inr (q, e) ↦ (q, rw e e)
]

-- What is settled then was so, or is what `settle` was called with.
pub settled_before :
    (n m : ℕ) (o p : Outcome) (l : List (ℕ × Outcome))
    → find m (settled_with (find n l) n o l) ≡ some p
    → (find m l ≡ some p) ⊎ ((n ≡ m) × (o ≡ p))
settled_before n m o p l h = elim (Option-cases (find n l)) [
  | inr (q, e) ↦ inl (rw e at h)
  | inl e ↦
      let g = rw e at h in
      elim (Bool-cases (n == m)) [
        | inl f ↦
            let same = (==_iff n m).0 f in
            inr (same, some_same (sym (find-first n o l) ∙ ap (λ k. find k ((n, o) ∷ l)) same ∙ g))
        | inr f ↦ inl (sym (find-later m n o l f) ∙ g)
      ]
]

pub find-drop_timer :
    (n m : ℕ) (l : List (ℕ × Text)) → (n == m) ≡ false → find m (drop_timer n l) ≡ find m l
unfolding find drop_timer
find-drop_timer n m [] h = refl
find-drop_timer n m ((k, id) ∷ l) h = elim (Bool-cases (k == n)) [
  | inl e ↦ rw e (
      find-drop_timer n m l h ∙ sym (find-later m k id l (ap (λ i. i == m) ((==_iff k n).0 e) ∙ h)))
  | inr e ↦ rw e (ap (λ t. if k == m then some id else t) (find-drop_timer n m l h))
]

module _ (s : Socket) where
  -- Handlers that were there, or are of subscriptions
  pub IsTracked-handlers :
      (m : List (Text × Handler))
      → IsTracked s
      → ((k : Text) (n : ℕ) (id : Text)
          → lookup k m ≡ some (answers n id)
          → lookup k s.handlers ≡ some (answers n id))
      → IsTracked (record s { handlers = m })
  IsTracked-handlers m t h = record {
    live = t.live;
    numbered = t.numbered;
    asked = λ k n id e. t.asked k n id (h k n id e);
    right = t.right;
  }

  pub IsTracked-without : (id : Text) → IsTracked s → IsTracked (without id s)
  IsTracked-without id t = IsTracked-handlers (remove id s.handlers) t λ k n j e.
      elim (Bool-cases (id === k)) [
        | inl f ↦ cc (rw (lookup-remove id k s.handlers, f) at e)
        | inr f ↦ rw (lookup-remove id k s.handlers, f) at e
      ]

  pub IsTracked-listens :
      (subscription : Text)
      → IsTracked s
      → IsTracked (record s { handlers = insert subscription (listens subscription) s.handlers })
  IsTracked-listens j t = IsTracked-handlers (insert j (listens j) s.handlers) t λ k n id e.
      elim (Bool-cases (j === k)) [
        | inl f ↦ cc (rw (lookup-insert j k (listens j) s.handlers, f) at e)
        | inr f ↦ rw (lookup-insert j k (listens j) s.handlers, f) at e
      ]
