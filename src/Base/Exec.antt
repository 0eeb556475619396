-- ===== src/Base/Exec.antt =====
-- Asynchronous methods of a class: they read and write a state, and may throw. What was written
-- before a throw stays written, so the state comes back beside the error.
use mathlib.Core.Path.{◌≡◌, refl, ap}
use mathlib.Core.Logic.{◌⊎◌, inl, inr}
use mathlib.Core.Bool.{Bool, true, false}
use mathlib.Core.List.{List, [], ◌∷◌}
use web5_js.Base.Tests.{if◌then◌else◌}
use web5_js.Base.Results.{Result, ok, err}

abbrev pub Exec : Type 0 → Type 0 → Type 0 → Type 0
Exec E S A = S → Result E A × S

module _ {E S A : Type 0} where
  unfoldable pub pure : A → Exec E S A
  pure a s = (ok a, s)

  unfoldable pub throw : E → Exec E S A
  throw e s = (err e, s)

  unfoldable pub gets : (S → A) → Exec E S A
  gets f s = (ok (f s), s)

  -- `try { ... }` whose outcome the code looks at
  unfoldable pub attempt : Exec E S A → Exec E S (Result E A)
  attempt m s = let (r, s') = m s in (ok r, s')

unfoldable pub modify : {E S : Type 0} → (S → S) → Exec E S (Unit {0})
modify f s = (ok tt, f s)

module _ {E S A B : Type 0} where
  unfoldable pub continue : Result E A → (A → Exec E S B) → Exec E S B
  continue (ok a) f s = f a s
  continue (err e) f s = (err e, s)

  unfoldable pub bind : Exec E S A → (A → Exec E S B) → Exec E S B
  unfolding continue
  bind m f s = let (r, s') = m s in continue r f s'

infixl 5 ◌>>=◌ ◌>>◌
abbrev pub ◌>>=◌ : {E S A B : Type 0} → Exec E S A → (A → Exec E S B) → Exec E S B
m >>= f = bind m f

abbrev pub ◌>>◌ : {E S B : Type 0} → Exec E S (Unit {0}) → Exec E S B → Exec E S B
m >> k = bind m (λ _. k)

-- `for (const x of xs) body(x)`: a throw ends the loop.
unfoldable pub for_each :
    {E S A : Type 0} → (A → Exec E S (Unit {0})) → List A → Exec E S (Unit {0})
for_each body [] = pure tt
for_each body (x ∷ xs) = bind (body x) (λ _. for_each body xs)

-- Whatever `m` does, a state with `P` stays one.
pub record Keeps {E S A : Type 0} (P : S → Type 0) (m : Exec E S A) : Type 0 where
  pub holds : (s : S) → P s → P (m s).1

module _ {E S A : Type 0} {P : S → Type 0} where
  pub Keeps-pure : (a : A) → Keeps {E = E} P (pure a)
  unfolding pure
  Keeps-pure a = record { holds = λ s h. h }

  pub Keeps-throw : (e : E) → Keeps {A = A} P (throw e)
  unfolding throw
  Keeps-throw e = record { holds = λ s h. h }

  pub Keeps-gets : (f : S → A) → Keeps {E = E} P (gets f)
  unfolding gets
  Keeps-gets f = record { holds = λ s h. h }

  pub Keeps-attempt : (m : Exec E S A) → Keeps P m → Keeps P (attempt m)
  unfolding attempt
  Keeps-attempt m k = record { holds = λ s h. k.holds s h }

  pub Keeps-if :
      (b : Bool) (m n : Exec E S A) → Keeps P m → Keeps P n → Keeps P (if b then m else n)
  Keeps-if true m n k l = k
  Keeps-if false m n k l = l

pub Keeps-modify :
    {E S : Type 0} {P : S → Type 0} (f : S → S)
    → ((s : S) → P s → P (f s))
    → Keeps {E = E} P (modify f)
unfolding modify
Keeps-modify f k = record { holds = k }

module _ {E S A B : Type 0} {P : S → Type 0} where
  Keeps-continue :
      (r : Result E A) (f : A → Exec E S B) (s : S)
      → ((a : A) → Keeps P (f a))
      → P s
      → P (continue r f s).1
  unfolding continue
  Keeps-continue (ok a) f s k h = (k a).holds s h
  Keeps-continue (err e) f s k h = h

  pub Keeps-bind :
      (m : Exec E S A) (f : A → Exec E S B)
      → Keeps P m
      → ((a : A) → Keeps P (f a))
      → Keeps P (bind m f)
  unfolding bind
  Keeps-bind m f k l = record { holds = λ s h. Keeps-continue (m s).0 f (m s).1 l (k.holds s h) }

-- The rest of a block may use what was true of the state that it read.
pub Keeps-bind-gets :
    {E S A B : Type 0} {P : S → Type 0} (g : S → A) (f : A → Exec E S B)
    → ((s : S) → P s → P (f (g s) s).1)
    → Keeps P (bind (gets g) f)
unfolding bind gets continue
Keeps-bind-gets g f k = record { holds = k }

module _ {E S A : Type 0} {P : S → Type 0} where
  pub Keeps-for_each :
      (body : A → Exec E S (Unit {0})) (xs : List A)
      → ((x : A) → Keeps P (body x))
      → Keeps P (for_each body xs)
  unfolding for_each
  Keeps-for_each body [] k = Keeps-pure tt
  Keeps-for_each body (x ∷ xs) k =
      Keeps-bind (body x) (λ _. for_each body xs) (k x) (λ _. Keeps-for_each body xs k)

-- Inversion of a bind that returned.
module _ {E S A B : Type 0} where
  continue-eq-ok :
      (r : Result E A) (f : A → Exec E S B) (s : S) {b : B}
      → (continue r f s).0 ≡ ok b
      → (a : A) × (r ≡ ok a) × ((f a s).0 ≡ ok b)
  unfolding continue
  continue-eq-ok (ok a) f s h = (a, refl, h)
  continue-eq-ok (err e) f s h = cc

  pub bind-eq-ok :
      (m : Exec E S A) (f : A → Exec E S B) (s : S) {b : B}
      → (bind m f s).0 ≡ ok b
      → (a : A) × ((m s).0 ≡ ok a) × ((f a (m s).1).0 ≡ ok b)
  unfolding bind
  bind-eq-ok m f s h = continue-eq-ok (m s).0 f (m s).1 h

pub Result-cases :
    {E A : Type 0} (r : Result E A) → ((a : A) × (r ≡ ok a)) ⊎ ((e : E) × (r ≡ err e))
Result-cases (ok a) = inl (a, refl)
Result-cases (err e) = inr (e, refl)

-- A block whose first step is known.
module _ {E S A B : Type 0} where
  pub bind-ok :
      (m : Exec E S A) (f : A → Exec E S B) (s : S) {a : A}
      → (m s).0 ≡ ok a
      → bind m f s ≡ f a (m s).1
  unfolding bind continue
  bind-ok m f s h = rw h refl

  pub bind-err :
      (m : Exec E S A) (f : A → Exec E S B) (s : S) {e : E}
      → (m s).0 ≡ err e
      → bind m f s ≡ (err e, (m s).1)
  unfolding bind continue
  bind-err m f s h = rw h refl

  -- The first step returned, in a state that is known.
  pub bind-step :
      (m : Exec E S A) (f : A → Exec E S B) (s t : S) (a : A) → m s ≡ (ok a, t) → bind m f s ≡ f a t
  unfolding bind continue
  bind-step m f s t a h = ap (λ p. continue p.0 f p.1) h

  pub bind-throws :
      (m : Exec E S A) (f : A → Exec E S B) (s t : S) (e : E)
      → m s ≡ (err e, t)
      → bind m f s ≡ (err e, t)
  unfolding bind continue
  bind-throws m f s t e h = ap (λ p. continue p.0 f p.1) h

  continue-ran :
      (r : Result E A) (f : A → Exec E S B) (s t : S) (b : B)
      → continue r f s ≡ (ok b, t)
      → (a : A) × (r ≡ ok a) × (f a s ≡ (ok b, t))
  unfolding continue
  continue-ran (ok a) f s t b h = (a, refl, h)
  continue-ran (err e) f s t b h = cc

  -- A block that returned: its first step did, and so did the rest, from where that ended.
  pub bind-ran :
      (m : Exec E S A) (f : A → Exec E S B) (s t : S) (b : B)
      → bind m f s ≡ (ok b, t)
      → (a : A) × ((m s).0 ≡ ok a) × (f a (m s).1 ≡ (ok b, t))
  unfolding bind
  bind-ran m f s t b h = continue-ran (m s).0 f (m s).1 t b h

pub bind-gets :
    {E S A B : Type 0} (g : S → A) (f : A → Exec E S B) (s : S) → bind (gets g) f s ≡ f (g s) s
unfolding bind gets continue
bind-gets g f s = refl

pub attempt-ok :
    {E S A : Type 0} (m : Exec E S A) (s : S) (r : Result E A)
    → (attempt m s).0 ≡ ok r
    → (m s).0 ≡ r
unfolding attempt
attempt-ok m s r h = cc
