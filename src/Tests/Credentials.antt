-- ===== src/Tests/Credentials.antt =====
-- The theorems about packages/credentials/src/status-list-credential.ts at concrete inputs.
use web5_js.Base.{
  ℕ, Text, codes, Option, none, some, List, [], ◌∷◌, map, ok, ◌≡◌, refl, truthy, ◌===◌, includes,
}
use web5_js.Base.ParseInt.{parse_int}
use web5_js.Credentials.StatusList.{
  Entry, Credential, Codec, IsCodec, create, validate_indexes, unique_indexes, add_entry, index_of,
  bitstring_bytes, validate_credential_in_status_list,
}
use web5_js.Credentials.StatusList.Laws.{indexes, revoked_in, list_of, create-validate}

-- A byte in front, and no compression
abbrev plain_codec : Codec
plain_codec = record {
  gzip = λ bs. 31 ∷ bs;
  inflate = un_gzip;
  encode = λ bs. bs;
  decode = λ s. some s;
}
  where
    un_gzip : List ℕ → Option (List ℕ)
    un_gzip [] = none
    un_gzip (_ ∷ bs) = some bs

plain_codec-IsCodec : IsCodec plain_codec
unfolding truthy
plain_codec-IsCodec = record {
  inflate-gzip = λ bs. refl;
  decode-encode = λ bs. refl;
  encode_given = λ bs. refl;
}

abbrev entry_at : Text → Entry
entry_at index = record { status_purpose = codes "revocation"; status_list_index = index }

abbrev revoked : List Credential
revoked = record { credential_status = some (entry_at (codes "94567")) } ∷ []

made :
    create plain_codec (codes "id") (codes "revocation") revoked
    ≡ ok (
        list_of plain_codec
          (codes "id")
          (codes "revocation")
          (map (parse_int 10) (codes "94567" ∷ [])))
unfolding create validate_indexes unique_indexes add_entry ◌===◌ includes parse_int bitstring_bytes
made = refl

create-validate_example :
    validate_credential_in_status_list plain_codec
      (record { credential_status = some (entry_at (codes "94567")) })
      (list_of plain_codec
        (codes "id")
        (codes "revocation")
        (map (parse_int 10) (codes "94567" ∷ [])))
    ≡ ok (
        revoked_in (map (parse_int 10) (indexes revoked)) (index_of (parse_int 10 (codes "94567"))))
create-validate_example =
    create-validate plain_codec (codes "id") (codes "revocation") revoked
      (list_of plain_codec (codes "id") (codes "revocation")
        (map (parse_int 10) (codes "94567" ∷ [])))
      (entry_at (codes "94567")) plain_codec-IsCodec (unfold truthy in refl) made refl
