-- ===== src/Dids/Dht/Methods.antt =====
-- The record of a verification method, written and read (packages/dids/src/methods/did-dht.ts).
use web5_js.Base.{
  ℕ, Text, codes, Option, none, some, List, ◌∷◌, ◌++◌, ◌≤◌, true, false, not, if◌then◌else◌, ◌===◌,
  ===_iff, ===_refl, ◌==◌, ==_iff, ◌&&◌, includes, truthy, drop, split-cut, split-Lacks, Lacks, ok,
  ◌≡◌, refl, sym, ap, ◌∙◌, Bool-cases, inl, inr, arith,
}
use web5_js.Base.Decimal.{decimal, number-decimal, decimal-Lacks, decimal-injective}
use web5_js.Dids.Dht.Types.{VerificationMethod, Keys}
use web5_js.Dids.Dht.Txt.{Object, property}
use web5_js.Dids.Dht.ToPacket.{
  registered_key_type, default_algorithm, has_converter, same_text, fragment, required_curve,
  key_record_id,
}
use web5_js.Dids.Dht.FromPacket.{
  key_type_name, or_default, or_given, key_of_bytes, method_fragment, method_of,
}
use web5_js.Dids.Dht.Pairs.{IsClear}

-- The curves that a record is read for, with their key types. P-256 is not among them.
pub data IsCurve : Text → ℕ → Type 0 where
  ed25519 : IsCurve (codes "Ed25519") 0
  secp256k1 : IsCurve (codes "secp256k1") 1
  x25519 : IsCurve (codes "X25519") 3

pub curve_type : (c : Text) (n : ℕ) → IsCurve c n → registered_key_type c ≡ some n
unfolding registered_key_type ◌===◌
curve_type _ _ ed25519 = refl
curve_type _ _ secp256k1 = refl
curve_type _ _ x25519 = refl

curve_name : (c : Text) (n : ℕ) → IsCurve c n → key_type_name (some n) ≡ some c
curve_name _ _ ed25519 = refl
curve_name _ _ secp256k1 = refl
curve_name _ _ x25519 = refl

pub curve_converter : (c : Text) (n : ℕ) → IsCurve c n → has_converter c ≡ true
unfolding has_converter includes ◌===◌
curve_converter _ _ ed25519 = refl
curve_converter _ _ secp256k1 = refl
curve_converter _ _ x25519 = refl

pub curve_required : (c : Text) (n : ℕ) → IsCurve c n → required_curve (some c) ≡ ok c
unfolding includes truthy ◌===◌
curve_required _ _ ed25519 = refl
curve_required _ _ secp256k1 = refl
curve_required _ _ x25519 = refl

not_digit : (c n : ℕ) → (48 ≤ c → c ≤ 57 → ⊥) → Lacks c (decimal n)
not_digit c n h = decimal-Lacks c n λ (low, high). h low high

pub decimal-IsClear : (n : ℕ) → IsClear (decimal n)
decimal-IsClear n =
    (not_digit b';' n (λ low high. omega arith), not_digit b'=' n (λ low high. omega arith))

pub fragment-id :
    (did id : Text) → Lacks b'#' did → Lacks b'#' id → fragment (did ++ (b'#' ∷ id)) ≡ id
unfolding fragment
fragment-id did id h k = rw (split-cut b'#' did id h, split-Lacks b'#' id k) refl

module _ (keys : Keys) where
  -- A key of the curve is written to bytes and read back, but for its `alg`.
  pub record IsKey (key : keys.Jwk) (c : Text) : Type 0 where
    pub has_curve : keys.curve key ≡ some c
    pub key_bytes : List ℕ
    pub to_bytes : keys.public_key_to_bytes c key ≡ ok key_bytes
    pub bare : keys.Jwk
    pub of_bytes : keys.bytes_to_public_key c key_bytes ≡ ok bare
    pub whole : keys.set_algorithm (keys.algorithm key) bare ≡ key
    pub of_base64url : keys.base64url_to_bytes (keys.bytes_to_base64url key_bytes) ≡ ok key_bytes
    pub base64url_clear : IsClear (keys.bytes_to_base64url key_bytes)

  -- A verification method that a record can hold: the one at `i`, with a fragment of its ID that is '0'
  -- for the first one only.
  pub record IsMethod (did : Text) (i : ℕ) (method : VerificationMethod keys.Jwk) : Type 0 where
    pub key : keys.Jwk
    pub has_key : method.public_key ≡ some key
    pub c : Text
    pub n : ℕ
    pub curve : IsCurve c n
    pub is_key : IsKey key c
    pub algorithm : Text
    pub has_algorithm : keys.algorithm key ≡ some algorithm
    pub algorithm_given : truthy algorithm ≡ true
    pub algorithm_clear : IsClear algorithm
    pub id : Text
    pub is_id : method.id ≡ did ++ (b'#' ∷ id)
    pub id_clear : IsClear id
    pub id_plain : Lacks b'#' id
    pub id_zero : (id === codes "0") ≡ (i == 0)
    pub controller_clear : IsClear method.controller

same_text_sound : (a b : Option Text) → same_text a b ≡ true → a ≡ b
same_text_sound none none h = refl
same_text_sound none (some b) h = cc
same_text_sound (some a) none h = cc
same_text_sound (some a) (some b) h = ap some ((===_iff a b).0 h)

-- The algorithm that is read, where it is written only if it is not the default
read_algorithm :
    (a : Text) (d : Option Text)
    → truthy a ≡ true
    → or_default (if not (same_text (some a) d) then some a else none) d ≡ some a
unfolding or_default
read_algorithm a d h = elim (Bool-cases (same_text (some a) d)) [
  | inl e ↦ rw e (sym (same_text_sound (some a) d e))
  | inr e ↦ rw (e, h) refl
]

read_controller :
    (controller did : Text)
    → or_given (if not (controller === did) then some controller else none) did ≡ controller
read_controller controller did = elim (Bool-cases (controller === did)) [
  | inl e ↦ rw e (sym ((===_iff controller did).0 e))
  | inr e ↦ rw e refl
]

pub key_record_id-zero : (i : ℕ) → (key_record_id i === codes "k0") ≡ (i == 0)
unfolding decimal
key_record_id-zero i = elim (Bool-cases (i == 0)) [
  | inl e ↦ rw (e, (==_iff i 0).0 e) (===_refl (codes "k0"))
  | inr e ↦ elim (Bool-cases (key_record_id i === codes "k0")) [
    | inr f ↦ rw (e, f) refl
    | inl f ↦
        elim (zero_differs i e
          (decimal-injective i 0 (ap (drop 1) ((===_iff (key_record_id i) (codes "k0")).0 f)))) [ ]
  ]
]
  where
    zero_differs : (i : ℕ) → (i == 0) ≡ false → i ≡ 0 → ⊥
    zero_differs i e f = ground arith

module _ (keys : Keys) where
  read_fragment :
      (i : ℕ) (id : Text) (key : keys.Jwk)
      → (id === codes "0") ≡ (i == 0)
      → method_fragment keys
          (key_record_id i)
          (if not (id === codes "0") && not (keys.thumbprint key === id) then some id else none)
          key
        ≡ id
  unfolding method_fragment
  read_fragment i id key z = elim (Bool-cases (i == 0)) [
    | inl e ↦ rw (key_record_id-zero i, e) (sym ((===_iff id (codes "0")).0 (z ∙ e)))
    | inr e ↦
        rw (key_record_id-zero i, e, z, e)
          (elim (Bool-cases (keys.thumbprint key === id)) [
            | inl f ↦ rw f ((===_iff (keys.thumbprint key) id).0 f)
            | inr f ↦ rw f refl
          ])
  ]

  -- A record with the properties of a method reads as the method.
  pub method_of-IsMethod :
      (did : Text) (i : ℕ) (method : VerificationMethod keys.Jwk) (m : IsMethod keys did i method)
      (o : Object)
      → property (codes "k") o ≡ some (keys.bytes_to_base64url m.is_key.key_bytes)
      → property (codes "t") o ≡ some (decimal m.n)
      → property (codes "a") o ≡ (
          if not (same_text (some m.algorithm) (default_algorithm (some m.n)))
          then some m.algorithm
          else none)
      → property (codes "c") o
        ≡ (if not (method.controller === did) then some method.controller else none)
      → property (codes "id") o ≡ (
          if not (m.id === codes "0") && not (keys.thumbprint m.key === m.id)
          then some m.id
          else none)
      → method_of keys did (key_record_id i) o ≡ ok method
  unfolding method_of key_of_bytes
  method_of-IsMethod did i method m o hk ht ha hc hi =
      rw
        (
          hk,
          m.is_key.of_base64url,
          ht,
          number-decimal m.n,
          curve_name m.c m.n m.curve,
          curve_converter m.c m.n m.curve,
          m.is_key.of_bytes,
          ha,
          read_algorithm m.algorithm (default_algorithm (some m.n)) m.algorithm_given,
          hc,
          read_controller method.controller did,
          hi,
          whole,
          read_fragment i m.id m.key m.id_zero,
        )
        (ap ok (same_method (sym m.is_id) refl (sym m.has_key)))
    where
      whole : keys.set_algorithm (some m.algorithm) m.is_key.bare ≡ m.key
      whole = ap (λ a. keys.set_algorithm a m.is_key.bare) (sym m.has_algorithm) ∙ m.is_key.whole

      same_method :
          {a b c d : Text} {e f : Option keys.Jwk}
          → a ≡ b
          → c ≡ d
          → e ≡ f
          → ◌≡◌ {A = VerificationMethod keys.Jwk}
              (record { id = a; controller = c; public_key = e })
              (record { id = b; controller = d; public_key = f })
      same_method x y z = cc
