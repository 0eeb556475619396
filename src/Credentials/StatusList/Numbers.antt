-- ===== src/Credentials/StatusList/Numbers.antt =====
-- The bits that `generateBitString` of packages/credentials/src/status-list-credential.ts sets for a list
-- of numbers.
use web5_js.Base.{
  ℕ, ◌/◌, ◌<◌, Option, none, some, List, [], ◌∷◌, Bool, false, ◌||◌, ◌==◌, ◌≡◌, refl, sym, ap,
  subst, ◌∙◌, arith, length, All,
}
use web5_js.Base.ParseInt.{Number}
use web5_js.Credentials.StatusList.{has_bit, index_of, set_at, set_number, set_numbers}
use web5_js.Credentials.StatusList.Bits.{
  AreBytes, AreBytes-set_bit, length-set_bit, has_bit-set_bit,
}

-- The index lies in the array, or is none at all.
abbrev pub InArray : ℕ → Option ℕ → Type 0
InArray len o = (i : ℕ) → o ≡ some i → i / 8 < len

abbrev pub hits : Option ℕ → ℕ → Bool
hits none m = false
hits (some i) m = i == m

-- Some number of the list is the index.
unfoldable pub listed : List Number → ℕ → Bool
listed [] m = false
listed (n ∷ ns) m = hits (index_of n) m || listed ns m

pub set_at_lem :
    (o : Option ℕ) (bytes : List ℕ) (m : ℕ)
    → AreBytes bytes
    → InArray (length bytes) o
    → has_bit (set_at bytes o) m ≡ (hits o m || has_bit bytes m)
set_at_lem none bytes m h k = refl
set_at_lem (some i) bytes m h k = has_bit-set_bit bytes i m h (k i refl)

AreBytes-set_at : (o : Option ℕ) (bytes : List ℕ) → AreBytes bytes → AreBytes (set_at bytes o)
AreBytes-set_at none bytes h = h
AreBytes-set_at (some i) bytes h = AreBytes-set_bit bytes i h

length-set_at : (o : Option ℕ) (bytes : List ℕ) → length (set_at bytes o) ≡ length bytes
length-set_at none bytes = refl
length-set_at (some i) bytes = length-set_bit bytes i

pub or_false : (b : Bool) → (b || false) ≡ b
or_false b = ground arith

regroup_or : (a b c : Bool) → (b || (a || c)) ≡ ((a || b) || c)
regroup_or a b c = ground arith

pub set_numbers_lem :
    (ns : List Number) (bytes : List ℕ) (m : ℕ)
    → AreBytes bytes
    → All (λ n. InArray (length bytes) (index_of n)) ns
    → has_bit (set_numbers bytes ns) m ≡ (listed ns m || has_bit bytes m)
unfolding set_numbers listed set_number
set_numbers_lem [] bytes m h k = refl
set_numbers_lem (n ∷ ns) bytes m h (k, ks) =
    let o = index_of n in
    let rest =
      set_numbers_lem ns (set_at bytes o) m (AreBytes-set_at o bytes h)
        (subst (λ l. All (λ n'. InArray l (index_of n')) ns) (sym (length-set_at o bytes)) ks) in
    rest
    ∙ ap (λ b. listed ns m || b) (set_at_lem o bytes m h k)
    ∙ regroup_or (hits o m) (listed ns m) (has_bit bytes m)
