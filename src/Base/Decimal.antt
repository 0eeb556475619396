-- ===== src/Base/Decimal.antt =====
-- Numbers as decimal text: `${n}`, and `Number(text)` on texts of digits.
use Prim.Native.Nat.{ℕ, zero, suc, ◌+◌, ◌-◌, ◌*◌, ◌/◌, ◌%◌, ◌≤◌, ◌<◌}
use mathlib.Core.Path.{◌≡◌, refl, sym, ap, subst, ◌∙◌}
use mathlib.Core.Logic.{inl, inr}
use mathlib.Core.Bool.{false, ◌&&◌}
use mathlib.Core.Option.{Option, none, some}
use mathlib.Core.List.{[], ◌∷◌}
use native.Mathlib.Omega.{arith}
use web5_js.Base.Tests.{leb, ◌==◌, ==_iff, if◌then◌else◌, Bool-cases}
use web5_js.Base.Lists.{All, All-map}
use web5_js.Base.Texts.{Text, Lacks}

-- The digits of `n` before `tail`, by the last one first, on fuel
decimal_go : ℕ → ℕ → Text → Text
decimal_go zero n tail = tail
decimal_go (suc fuel) n tail =
    let more = decimal_go fuel (n / 10) ((48 + n % 10) ∷ tail) in
    if n / 10 == 0 then (48 + n % 10) ∷ tail else more

unfoldable pub decimal : ℕ → Text
unfolding decimal_go
decimal n = decimal_go (suc n) n []

number_go : ℕ → Text → Option ℕ
number_go value [] = some value
number_go value (c ∷ s) =
    let rest = number_go (value * 10 + (c - 48)) s in if leb 48 c && leb c 57 then rest else none

-- `Number(s)`, where `none` is `NaN`. Other spellings than digits (a sign, a fraction, an exponent, white
-- space, `0x`) are `NaN` here.
unfoldable pub number : Text → Option ℕ
unfolding number_go
number s = number_go 0 s

abbrev pub IsDigit : ℕ → Type 0
IsDigit c = (48 ≤ c) × (c ≤ 57)

digit_step :
    (value d : ℕ) (s : Text)
    → d < 10
    → number_go value ((48 + d) ∷ s) ≡ number_go (value * 10 + d) s
unfolding number_go
digit_step value d s h = ground arith

number_go-decimal_go :
    (fuel n : ℕ) (tail : Text) → n < fuel → number_go 0 (decimal_go fuel n tail) ≡ number_go n tail
unfolding decimal_go
number_go-decimal_go zero n tail h = elim (no_fuel n h) [ ]
  where
    no_fuel : (n : ℕ) → n < 0 → ⊥
    no_fuel n h = omega arith
number_go-decimal_go (suc fuel) n tail h = elim (Bool-cases (n / 10 == 0)) [
  | inl e ↦ rw e (
      digit_step 0 (n % 10) tail (omega arith)
      ∙ ap (λ v. number_go v tail) (last_digit n ((==_iff (n / 10) 0).0 e)))
  | inr e ↦ rw e (
      number_go-decimal_go fuel (n / 10) ((48 + n % 10) ∷ tail) (smaller n fuel e h)
      ∙ digit_step (n / 10) (n % 10) tail (omega arith)
      ∙ ap (λ v. number_go v tail) (joined n))
]
  where
    last_digit : (n : ℕ) → n / 10 ≡ 0 → 0 * 10 + n % 10 ≡ n
    last_digit n h = omega arith

    joined : (n : ℕ) → n / 10 * 10 + n % 10 ≡ n
    joined n = omega arith

    smaller : (n fuel : ℕ) → (n / 10 == 0) ≡ false → n < suc fuel → n / 10 < fuel
    smaller n fuel e h = ground arith

-- What was printed is read back.
pub number-decimal : (n : ℕ) → number (decimal n) ≡ some n
unfolding number decimal number_go
number-decimal n = number_go-decimal_go (suc n) n [] (omega arith)

decimal_go-IsDigit :
    (fuel n : ℕ) (tail : Text) → All IsDigit tail → All IsDigit (decimal_go fuel n tail)
unfolding decimal_go
decimal_go-IsDigit zero n tail h = h
decimal_go-IsDigit (suc fuel) n tail h = elim (Bool-cases (n / 10 == 0)) [
  | inl e ↦ rw e (digit n, h)
  | inr e ↦ rw e (decimal_go-IsDigit fuel (n / 10) ((48 + n % 10) ∷ tail) (digit n, h))
]
  where
    digit : (n : ℕ) → IsDigit (48 + n % 10)
    digit n = (omega arith, omega arith)

-- There are only digits in it.
pub decimal-Lacks : (c n : ℕ) → ¬ (IsDigit c) → Lacks c (decimal n)
unfolding decimal
decimal-Lacks c n h =
    All-map IsDigit (λ x d e. h (subst IsDigit e d)) (decimal n)
      (decimal_go-IsDigit (suc n) n [] tt)

pub decimal-injective : (n m : ℕ) → decimal n ≡ decimal m → n ≡ m
decimal-injective n m e = some_same (sym (number-decimal n) ∙ ap number e ∙ number-decimal m)
  where
    some_same : {a b : ℕ} → some a ≡ some b → a ≡ b
    some_same h = cc

-- A text that starts with another unit is no number.
pub number-none : (c : ℕ) (s : Text) → (leb 48 c && leb c 57) ≡ false → number (c ∷ s) ≡ none
unfolding number number_go
number-none c s h = rw h refl
