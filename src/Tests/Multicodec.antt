-- ===== src/Tests/Multicodec.antt =====
-- The theorems about packages/common/src/multicodec.ts at concrete inputs.
use web5_js.Base.{
  ℕ, Text, codes, Option, none, some, List, [], ◌∷◌, lookup, is_given, ok, ◌≡◌, refl,
}
use web5_js.Common.Multicodec.{
  Varint, Registry, register_codec, insert_code, lookup_code, resolve_code, add_prefix,
  remove_prefix,
}
use web5_js.Common.Multicodec.Prefix.{
  IsConsistent, register_codec-IsConsistent, remove_prefix-add_prefix,
}

abbrev read_unit : List ℕ → Option (ℕ × ℕ)
read_unit [] = none
read_unit (b ∷ _) = some (b, 1)

-- A code as one unit
abbrev one_unit : Varint
one_unit = record { encode = λ n. n ∷ []; decode = read_unit; decode-encode = λ n rest. refl }

abbrev no_codecs : Registry
no_codecs = record { code_to_name = []; name_to_code = [] }

no_codecs-IsConsistent : IsConsistent no_codecs
unfolding lookup
no_codecs-IsConsistent = record { named_code = λ name c h. cc }

abbrev one_codec : Registry
one_codec = register_codec 0xed (codes "ed25519-pub") no_codecs

prefixed : add_prefix one_unit one_codec (some 0xed) none (1 ∷ 2 ∷ []) ≡ ok (0xed ∷ 1 ∷ 2 ∷ [])
unfolding add_prefix resolve_code register_codec insert_code lookup_code is_given
prefixed = refl

remove_prefix-add_prefix_example :
    (c : ℕ) × (n : Text) × (resolve_code one_codec (some 0xed) none ≡ some c)
    × (lookup_code c one_codec.code_to_name ≡ some n)
    × (remove_prefix one_unit one_codec (0xed ∷ 1 ∷ 2 ∷ []) ≡ ok (c, n, 1 ∷ 2 ∷ []))
remove_prefix-add_prefix_example =
    remove_prefix-add_prefix one_unit one_codec (some 0xed) none (1 ∷ 2 ∷ []) (0xed ∷ 1 ∷ 2 ∷ [])
      (register_codec-IsConsistent 0xed (codes "ed25519-pub") no_codecs no_codecs-IsConsistent)
      prefixed
