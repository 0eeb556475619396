-- ===== src/Credentials/StatusList/Bits.antt =====
-- The bit array of packages/credentials/src/status-list-credential.ts: a bit that is set is read
-- back, and no other bit changes.
use web5_js.Base.{
  ℕ, zero, suc, ◌-◌, ◌/◌, ◌%◌, ◌^◌, ◌<◌, List, [], ◌∷◌, Bool, true, false, ◌&&◌, ◌||◌, ◌==◌, ==_iff,
  ◌≡◌, ◌≢◌, refl, sym, ap, ◌∙◌, arith, length, length-set, set, replicate, All, get_elem?-set_self,
  get_elem?-set_ne, Bool-cases, inl, inr,
}
use web5_js.Credentials.StatusList.{byte_at, set_bit, bit_of, has_bit}
use Prim.Native.Nat.{bit_or}
use mathlib.Core.Path.{ap₂}
use web5_js.Base.Range.{every_under, every_under-at}

same_bool : Bool → Bool → Bool
same_bool true b = b
same_bool false true = false
same_bool false false = true

same_bool_sound : (a b : Bool) → same_bool a b ≡ true → a ≡ b
unfolding same_bool
same_bool_sound true b h = sym h
same_bool_sound false true h = cc
same_bool_sound false false h = refl

-- A byte with one bit more, at the places `i` and `j`.
row : ℕ → ℕ → ℕ → Bool
unfolding same_bool bit_of
row b i j = same_bool (bit_of (bit_or b (2 ^ (7 - i))) j) (i == j || bit_of b j)

fits : ℕ → ℕ → Bool
fits b i = bit_or b (2 ^ (7 - i)) / 256 == 0

table : every_under (λ b. every_under (λ i. fits b i && every_under (row b i) 8) 8) 256 ≡ true
unfolding every_under row fits
table = refl

and_parts : (a b : Bool) → (a && b) ≡ true → (a ≡ true) × (b ≡ true)
and_parts a b h = ground arith

table_at : (b i : ℕ) → b < 256 → i < 8 → (fits b i && every_under (row b i) 8) ≡ true
table_at b i hb hi =
    every_under-at (λ k. fits b k && every_under (row b k) 8) 8 i
      (every_under-at (λ c. every_under (λ k. fits c k && every_under (row c k) 8) 8) 256 b table
        hb)
      hi

row_lem :
    (b i j : ℕ)
    → b < 256
    → i < 8
    → j < 8
    → bit_of (bit_or b (2 ^ (7 - i))) j ≡ (i == j || bit_of b j)
unfolding row
row_lem b i j hb hi hj =
    let (_, rows) = and_parts (fits b i) (every_under (row b i) 8) (table_at b i hb hi) in
    same_bool_sound _ _ (every_under-at (row b i) 8 j rows hj)

fits_lem : (b i : ℕ) → b < 256 → i < 8 → bit_or b (2 ^ (7 - i)) < 256
unfolding fits
fits_lem b i hb hi =
    let (fit, _) = and_parts (fits b i) (every_under (row b i) 8) (table_at b i hb hi) in
    ground (arith, fit)

abbrev pub AreBytes : List ℕ → Type 0
AreBytes = All (λ b. b < 256)

byte_at-lt : (bytes : List ℕ) (i : ℕ) → AreBytes bytes → byte_at bytes i < 256
unfolding byte_at
byte_at-lt [] i _ = omega arith
byte_at-lt (b ∷ bs) zero (h, _) = h
byte_at-lt (b ∷ bs) (suc i) (_, h) = byte_at-lt bs i h

byte_at-set_self : (bytes : List ℕ) (i v : ℕ) → i < length bytes → byte_at (set bytes i v) i ≡ v
unfolding byte_at
byte_at-set_self bytes i v h = rw (get_elem?-set_self bytes i v h) refl

byte_at-set_ne : (bytes : List ℕ) (i j v : ℕ) → i ≢ j → byte_at (set bytes i v) j ≡ byte_at bytes j
unfolding byte_at
byte_at-set_ne bytes i j v h = rw (get_elem?-set_ne bytes i j v h) refl

AreBytes-set : (bytes : List ℕ) (i v : ℕ) → AreBytes bytes → v < 256 → AreBytes (set bytes i v)
AreBytes-set [] i v _ _ = tt
AreBytes-set (b ∷ bs) zero v (_, h) k = (k, h)
AreBytes-set (b ∷ bs) (suc i) v (p, h) k = (p, AreBytes-set bs i v h k)

pub AreBytes-set_bit : (bytes : List ℕ) (n : ℕ) → AreBytes bytes → AreBytes (set_bit bytes n)
unfolding set_bit
AreBytes-set_bit bytes n h =
    AreBytes-set bytes (n / 8) _ h
      (fits_lem (byte_at bytes (n / 8)) (n % 8) (byte_at-lt bytes (n / 8) h) (omega arith))

pub length-set_bit : (bytes : List ℕ) (n : ℕ) → length (set_bit bytes n) ≡ length bytes
unfolding set_bit
length-set_bit bytes n = length-set bytes (n / 8) _

same_place : (n m : ℕ) → n / 8 ≡ m / 8 → (n % 8 == m % 8) ≡ (n == m)
same_place n m e = ground arith

other_place : (n m : ℕ) → n / 8 ≢ m / 8 → (n == m) ≡ false
other_place n m h = elim (Bool-cases (n == m)) [
  | inl same ↦ absurd (h (ap (λ k. k / 8) ((==_iff n m).0 same)))
  | inr other ↦ other
]

absurd_test : (a b : ℕ) → a ≡ b → (a == b) ≡ false → ⊥
absurd_test a b e h = ground arith

-- Within the array, setting a bit is seen at that bit and nowhere else.
pub has_bit-set_bit :
    (bytes : List ℕ) (n m : ℕ)
    → AreBytes bytes
    → n / 8 < length bytes
    → has_bit (set_bit bytes n) m ≡ (n == m || has_bit bytes m)
unfolding has_bit set_bit
has_bit-set_bit bytes n m h lt = elim (Bool-cases (n / 8 == m / 8)) [
  | inl same ↦
      let e : n / 8 ≡ m / 8 = (==_iff _ _).0 same in
      let v = bit_or (byte_at bytes (n / 8)) (2 ^ (7 - n % 8)) in
      let at : byte_at (set bytes (n / 8) v) (m / 8) ≡ v =
        ap (byte_at (set bytes (n / 8) v)) (sym e) ∙ byte_at-set_self bytes (n / 8) v lt in
      let bit =
        row_lem (byte_at bytes (n / 8)) (n % 8) (m % 8) (byte_at-lt bytes (n / 8) h) (omega arith)
          (omega arith) in
      ap (λ b. bit_of b (m % 8)) at
      ∙ bit
      ∙ ap₂ (λ a b. a || bit_of (byte_at bytes b) (m % 8)) (same_place n m e) e
  | inr other ↦
      let ne : n / 8 ≢ m / 8 = λ e. absurd_test (n / 8) (m / 8) e other in
      ap (λ b. bit_of b (m % 8)) (byte_at-set_ne bytes (n / 8) (m / 8) _ ne)
      ∙ ap (λ b. b || bit_of (byte_at bytes (m / 8)) (m % 8)) (sym (other_place n m ne))
]

pub AreBytes-replicate : (n : ℕ) → AreBytes (replicate n 0)
AreBytes-replicate zero = tt
AreBytes-replicate (suc n) = (omega arith, AreBytes-replicate n)

bit_of-zero : (i : ℕ) → bit_of 0 i ≡ false
unfolding bit_of
bit_of-zero i = ground arith

byte_at-replicate : (n i : ℕ) → byte_at (replicate n 0) i ≡ 0
unfolding byte_at
byte_at-replicate zero i = refl
byte_at-replicate (suc n) zero = refl
byte_at-replicate (suc n) (suc i) = byte_at-replicate n i

pub has_bit-replicate : (n m : ℕ) → has_bit (replicate n 0) m ≡ false
unfolding has_bit
has_bit-replicate n m = rw (byte_at-replicate n (m / 8)) (bit_of-zero (m % 8))
