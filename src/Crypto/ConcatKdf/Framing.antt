-- ===== src/Crypto/ConcatKdf/Framing.antt =====
-- The length of a derived key, and what its input tells of the parties
-- (packages/crypto/src/primitives/concat-kdf.ts).
use web5_js.Base.{
  ℕ, zero, suc, ◌+◌, ◌/◌, ◌%◌, ◌≤◌, ◌<◌, Text, Option, none, some, List, [], ◌∷◌, ◌++◌, Bool, true,
  false, ◌==◌, ==_iff, length, take, append_assoc, append-nil, ok, ◌≡◌, refl, sym, ap, ◌∙◌, arith,
  Bool-cases, inl, inr,
}
use web5_js.Crypto.ConcatKdf.{
  Data, text, FixedInfo, uint32, round_count, to_bytes, variable_data, fixed_data,
  compute_fixed_info, derive_key,
}

head_eq : {a b : ℕ} {x y : List ℕ} → a ∷ x ≡ b ∷ y → a ≡ b
head_eq h = cc

tail_eq : {a b : ℕ} {x y : List ℕ} → a ∷ x ≡ b ∷ y → x ≡ y
tail_eq h = cc

same_number :
    (n m : ℕ)
    → n < 4294967296
    → m < 4294967296
    → n / 16777216 % 256 ≡ m / 16777216 % 256
    → n / 65536 % 256 ≡ m / 65536 % 256
    → n / 256 % 256 ≡ m / 256 % 256
    → n % 256 ≡ m % 256
    → n ≡ m
same_number n m h k a b c d = omega arith

-- Four bytes tell a number below 2 ^ 32, and what follows them.
uint32-cut :
    (n m : ℕ) (x y : List ℕ)
    → n < 4294967296
    → m < 4294967296
    → uint32 n ++ x ≡ uint32 m ++ y
    → (n ≡ m) × (x ≡ y)
unfolding uint32
uint32-cut n m x y h k e =
    let e₁ = tail_eq e in
    let e₂ = tail_eq e₁ in
    let e₃ = tail_eq e₂ in
    (same_number n m h k (head_eq e) (head_eq e₁) (head_eq e₂) (head_eq e₃), tail_eq e₃)

length-cut : (a b x y : List ℕ) → length a ≡ length b → a ++ x ≡ b ++ y → (a ≡ b) × (x ≡ y)
length-cut [] [] x y h e = (refl, e)
length-cut [] (c ∷ b) x y h e = cc
length-cut (c ∷ a) [] x y h e = cc
length-cut (c ∷ a) (d ∷ b) x y h e =
    let (same, rest) = length-cut a b x y (suc_same h) (tail_eq e) in (cc, rest)
  where
    suc_same : {n m : ℕ} → suc n ≡ suc m → n ≡ m
    suc_same h = omega arith

-- What fits in the four bytes
abbrev pub Fits : ℕ → Type 0
Fits n = n < 4294967296

abbrev pub FitsNumber : Option ℕ → Type 0
FitsNumber none = Unit
FitsNumber (some n) = Fits n

abbrev pub is_present : {A : Type 0} → Option A → Bool
is_present none = false
is_present (some _) = true

module _ (utf8 : Text → List ℕ) where
  abbrev pub FitsData : Option Data → Type 0
  FitsData none = Unit
  FitsData (some d) = Fits (length (to_bytes utf8 d))

  abbrev pub bytes_of : Option Data → Option (List ℕ)
  bytes_of none = none
  bytes_of (some d) = some (to_bytes utf8 d)

  pub record IsShort (p : FixedInfo) : Type 0 where
    pub algorithm_fits : Fits (length (utf8 p.algorithm_id))
    pub party_u_fits : Fits (length (to_bytes utf8 p.party_u_info))
    pub party_v_fits : Fits (length (to_bytes utf8 p.party_v_info))
    pub supp_pub_fits : FitsNumber p.supp_pub_info
    pub supp_priv_fits : FitsData p.supp_priv_info

  variable_data-cut :
      (d e : Data) (x y : List ℕ)
      → Fits (length (to_bytes utf8 d))
      → Fits (length (to_bytes utf8 e))
      → variable_data utf8 (some d) ++ x ≡ variable_data utf8 (some e) ++ y
      → (to_bytes utf8 d ≡ to_bytes utf8 e) × (x ≡ y)
  unfolding variable_data
  variable_data-cut d e x y h k f =
      let a = to_bytes utf8 d in
      let b = to_bytes utf8 e in
      let g =
        sym (append_assoc (uint32 (length a)) a x) ∙ f ∙ append_assoc (uint32 (length b)) b y in
      let (same, rest) = uint32-cut (length a) (length b) (a ++ x) (b ++ y) h k g in
      length-cut a b x y same rest

  fixed_data-cut :
      (a b : Option ℕ) (x y : List ℕ)
      → FitsNumber a
      → FitsNumber b
      → is_present a ≡ is_present b
      → fixed_data utf8 a ++ x ≡ fixed_data utf8 b ++ y
      → (a ≡ b) × (x ≡ y)
  unfolding fixed_data
  fixed_data-cut none none x y h k e f = (refl, f)
  fixed_data-cut none (some m) x y h k e f = cc
  fixed_data-cut (some n) none x y h k e f = cc
  fixed_data-cut (some n) (some m) x y h k e f =
      let (same, rest) = uint32-cut n m x y h k f in (ap some same, rest)

  last_data :
      (a b : Option Data)
      → FitsData a
      → FitsData b
      → variable_data utf8 a ≡ variable_data utf8 b
      → bytes_of a ≡ bytes_of b
  unfolding variable_data uint32
  last_data none none h k e = refl
  last_data none (some d) h k e = cc
  last_data (some d) none h k e = cc
  last_data (some d) (some e) h k f =
      ap some (variable_data-cut d e [] [] h k (append-nil _ ∙ f ∙ sym (append-nil _))).0

  -- FixedInfo, as computeFixedInfo returns it, tells every field that it was made from, if both have the
  -- public number or both have none, and all lengths and the numbers are below 2 ^ 32.
  pub compute_fixed_info-cut :
      (p q : FixedInfo)
      → IsShort p
      → IsShort q
      → is_present p.supp_pub_info ≡ is_present q.supp_pub_info
      → compute_fixed_info utf8 p ≡ compute_fixed_info utf8 q
      → (utf8 p.algorithm_id ≡ utf8 q.algorithm_id)
        × (to_bytes utf8 p.party_u_info ≡ to_bytes utf8 q.party_u_info)
        × (to_bytes utf8 p.party_v_info ≡ to_bytes utf8 q.party_v_info)
        × (p.supp_pub_info ≡ q.supp_pub_info)
        × (bytes_of p.supp_priv_info ≡ bytes_of q.supp_priv_info)
  unfolding compute_fixed_info to_bytes
  compute_fixed_info-cut p q h k shape e =
      let (algorithm, e₁) =
        variable_data-cut (text p.algorithm_id) (text q.algorithm_id) _ _ h.algorithm_fits
          k.algorithm_fits e in
      let (party_u, e₂) =
        variable_data-cut p.party_u_info q.party_u_info _ _ h.party_u_fits k.party_u_fits e₁ in
      let (party_v, e₃) =
        variable_data-cut p.party_v_info q.party_v_info _ _ h.party_v_fits k.party_v_fits e₂ in
      let (number, e₄) =
        fixed_data-cut p.supp_pub_info q.supp_pub_info _ _ h.supp_pub_fits k.supp_pub_fits shape
          e₃ in
      (
        algorithm,
        party_u,
        party_v,
        number,
        last_data p.supp_priv_info q.supp_priv_info h.supp_priv_fits k.supp_priv_fits e₄,
      )

length-take_le : (n : ℕ) (l : List ℕ) → n ≤ length l → length (take n l) ≡ n
length-take_le zero l h = refl
length-take_le (suc n) [] h = omega arith
length-take_le (suc n) (x ∷ l) h = ap suc (length-take_le n l (omega arith))

one_round : (n : ℕ) → 1 ≤ n → n ≤ 256 → (n + 255) / 256 ≡ 1
one_round n h k = omega arith

from_one_round : (n : ℕ) → (n + 255) / 256 ≡ 1 → (1 ≤ n) × (n ≤ 256)
from_one_round n h = (omega arith, omega arith)

-- With a hash of 32 bytes `deriveKey` returns for the lengths from 1 to 256 bits, and for these only; the key
-- has the whole bytes of that length.
pub derive_key-Length :
    (utf8 : Text → List ℕ) (sha256 : List ℕ → List ℕ) (n : ℕ) (p : FixedInfo) (secret : List ℕ)
    → ((b : List ℕ) → length (sha256 b) ≡ 32)
    → ((1 ≤ n) × (n ≤ 256)
        → (k : List ℕ) × (derive_key utf8 sha256 n p secret ≡ ok k) × (length k ≡ n / 8))
      × ((k : List ℕ) → derive_key utf8 sha256 n p secret ≡ ok k → (1 ≤ n) × (n ≤ 256))
unfolding derive_key round_count
derive_key-Length utf8 sha256 n p secret h = (
  λ (low, high).
      let input = uint32 ((n + 255) / 256) ++ (secret ++ compute_fixed_info utf8 p) in
      (
        take (n / 8) (sha256 input),
        rw (one_round n low high) refl,
        length-take_le (n / 8) (sha256 input) (bound n high (h input)),
      ),
  λ k e. elim (Bool-cases ((n + 255) / 256 == 1)) [
    | inl f ↦ from_one_round n ((==_iff _ 1).0 f)
    | inr f ↦ cc (rw f at e)
  ],
)
  where
    bound : (n : ℕ) {l : ℕ} → n ≤ 256 → l ≡ 32 → n / 8 ≤ l
    bound n h k = omega arith
