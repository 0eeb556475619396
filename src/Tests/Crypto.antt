-- ===== src/Tests/Crypto.antt =====
-- The theorems about packages/crypto at concrete inputs, with a hash that is no hash and one byte for each
-- code unit.
use web5_js.Base.{
  ℕ, ◌/◌, ◌≤◌, Text, codes, none, some, List, [], ◌∷◌, ◌++◌, length, ok, ◌≡◌, refl, arith,
}
use web5_js.Crypto.ConcatKdf.{
  text, bytes, FixedInfo, uint32, to_bytes, variable_data, fixed_data, compute_fixed_info,
  derive_key,
}
use web5_js.Crypto.ConcatKdf.Framing.{bytes_of, IsShort, compute_fixed_info-cut, derive_key-Length}

abbrev ascii : Text → List ℕ
ascii t = t

abbrev eight : List ℕ
eight = 1 ∷ 2 ∷ 3 ∷ 4 ∷ 5 ∷ 6 ∷ 7 ∷ 8 ∷ []

abbrev thirty_two : List ℕ
thirty_two = eight ++ (eight ++ (eight ++ eight))

abbrev constant_hash : List ℕ → List ℕ
constant_hash b = thirty_two

abbrev to_bob : FixedInfo
to_bob = record {
  algorithm_id = codes "A128GCM";
  party_u_info = text (codes "Alice");
  party_v_info = text (codes "Bob");
  supp_pub_info = some 128;
  supp_priv_info = none;
}

abbrev to_bob_in_bytes : FixedInfo
to_bob_in_bytes = record to_bob { party_v_info = bytes (codes "Bob") }

to_bob-IsShort : IsShort ascii to_bob
unfolding to_bytes
to_bob-IsShort = record {
  algorithm_fits = omega arith;
  party_u_fits = omega arith;
  party_v_fits = omega arith;
  supp_pub_fits = omega arith;
  supp_priv_fits = tt;
}

to_bob_in_bytes-IsShort : IsShort ascii to_bob_in_bytes
unfolding to_bytes
to_bob_in_bytes-IsShort = record {
  algorithm_fits = omega arith;
  party_u_fits = omega arith;
  party_v_fits = omega arith;
  supp_pub_fits = omega arith;
  supp_priv_fits = tt;
}

same_input : compute_fixed_info ascii to_bob ≡ compute_fixed_info ascii to_bob_in_bytes
unfolding compute_fixed_info variable_data fixed_data to_bytes uint32
same_input = refl

compute_fixed_info-cut_example :
    (ascii to_bob.algorithm_id ≡ ascii to_bob_in_bytes.algorithm_id)
    × (to_bytes ascii to_bob.party_u_info ≡ to_bytes ascii to_bob_in_bytes.party_u_info)
    × (to_bytes ascii to_bob.party_v_info ≡ to_bytes ascii to_bob_in_bytes.party_v_info)
    × (to_bob.supp_pub_info ≡ to_bob_in_bytes.supp_pub_info)
    × (bytes_of ascii to_bob.supp_priv_info ≡ bytes_of ascii to_bob_in_bytes.supp_priv_info)
compute_fixed_info-cut_example =
    compute_fixed_info-cut ascii to_bob to_bob_in_bytes to_bob-IsShort to_bob_in_bytes-IsShort refl
      same_input

hash-length : (b : List ℕ) → length (constant_hash b) ≡ 32
hash-length b = refl

derive_key-Length_example :
    ((1 ≤ 128) × (128 ≤ 256)
      → (k : List ℕ) × (derive_key ascii constant_hash 128 to_bob (7 ∷ []) ≡ ok k)
        × (length k ≡ 128 / 8))
    × ((k : List ℕ)
        → derive_key ascii constant_hash 128 to_bob (7 ∷ []) ≡ ok k
        → (1 ≤ 128) × (128 ≤ 256))
derive_key-Length_example = derive_key-Length ascii constant_hash 128 to_bob (7 ∷ []) hash-length
