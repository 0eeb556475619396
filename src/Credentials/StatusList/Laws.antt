-- ===== src/Credentials/StatusList/Laws.antt =====
-- What `create` and `validateCredentialInStatusList` of
-- packages/credentials/src/status-list-credential.ts do together.
use web5_js.Base.{
  append-nil, append_assoc, ℕ, zero, suc, ◌/◌, ◌<◌, Text, Option, none, some, List, [], ◌∷◌, ◌++◌,
  map, Bool, true, false, ◌||◌, not, ◌===◌, ===_iff, truthy, includes, Result, ok, guard, >>=-eq-ok,
  ◌≡◌, refl, sym, ap, subst, ◌∙◌, arith, replicate, length-replicate, All, All-append,
}
use web5_js.Base.ParseInt.{Number, nan, pos, neg, parse_int}
use web5_js.Credentials.StatusList.{
  Entry, Credential, StatusList, Error, Codec, IsCodec, bitstring_bytes, index_of, set_numbers,
  generate_bit_string, get_bit, bit_at, is_negative, is_too_large, add_entry, unique_indexes,
  validate_indexes, create, validate_entry, validate_credential_in_status_list,
}
use web5_js.Credentials.StatusList.Bits.{AreBytes-replicate, has_bit-replicate}
use web5_js.Credentials.StatusList.Numbers.{InArray, listed, or_false, set_numbers_lem}

-- The index texts of the credentials that have a status, in order.
abbrev index_in : Option Entry → List Text → List Text
index_in none rest = rest
index_in (some e) rest = e.status_list_index ∷ rest

unfoldable pub indexes : List Credential → List Text
indexes [] = []
indexes (vc ∷ vcs) = index_in vc.credential_status (indexes vcs)

zero_in : (i : ℕ) → index_of (neg zero) ≡ some i → i / 8 < bitstring_bytes
unfolding index_of bitstring_bytes
zero_in i e = let same : 0 ≡ i = ground arith in ground arith

number_InArray :
    (n : Number)
    → is_negative n ≡ false
    → is_too_large n ≡ false
    → InArray bitstring_bytes (index_of n)
unfolding index_of
number_InArray nan h k i e = cc
number_InArray (pos n) h k i e = let same : n ≡ i = ground arith in ground arith
number_InArray (neg zero) h k i e = zero_in i e
number_InArray (neg (suc n)) h k i e = cc

-- The index of a text lies in the array.
abbrev Fits : Text → Type 0
Fits t = InArray bitstring_bytes (index_of (parse_int 10 t))

guard-ok : (b : Bool) (e : Error) {u : Unit {0}} → guard b e ≡ ok u → b ≡ true
guard-ok true e h = refl
guard-ok false e h = cc

not_lem : (b : Bool) → not b ≡ true → b ≡ false
not_lem true h = cc
not_lem false h = refl

add_entry_inv :
    (purpose : Text) (seen : List Text) (o : Option Entry) (out : List Text)
    → add_entry purpose seen o ≡ ok out
    → (e : Entry) × (o ≡ some e)
      × (out ≡ seen ++ (e.status_list_index ∷ []))
      × Fits e.status_list_index
unfolding add_entry
add_entry_inv purpose seen none out h = cc
add_entry_inv purpose seen (some e) out h =
    let (_, _, h1) = >>=-eq-ok (guard (e.status_purpose === purpose) _) _ h in
    let (_, _, h2) = >>=-eq-ok (guard (not (includes seen e.status_list_index)) _) _ h1 in
    let n = parse_int 10 e.status_list_index in
    let (_, neg_ok, h3) = >>=-eq-ok (guard (not (is_negative n)) _) _ h2 in
    let (_, big_ok, h4) = >>=-eq-ok (guard (not (is_too_large n)) _) _ h3 in
    (
      e,
      refl,
      cc,
      number_InArray n (not_lem _ (guard-ok _ _ neg_ok)) (not_lem _ (guard-ok _ _ big_ok)),
    )

regroup :
    (seen : List Text) (o : Option Entry) (e : Entry) (rest seen' : List Text)
    → o ≡ some e
    → seen' ≡ seen ++ (e.status_list_index ∷ [])
    → seen' ++ rest ≡ seen ++ index_in o rest
regroup seen o e rest seen' given grown =
    ap (λ s. s ++ rest) grown
    ∙ append_assoc seen (e.status_list_index ∷ []) rest
    ∙ ap (λ o'. seen ++ index_in o' rest) (sym given)

unique_indexes_inv :
    (purpose : Text) (seen : List Text) (vcs : List Credential) (out : List Text)
    → All Fits seen
    → unique_indexes purpose seen vcs ≡ ok out
    → (out ≡ seen ++ indexes vcs) × All Fits out
unfolding unique_indexes indexes
unique_indexes_inv purpose seen [] out k h =
    let same : seen ≡ out = cc in (sym same ∙ sym (append-nil seen), subst (All Fits) same k)
unique_indexes_inv purpose seen (vc ∷ vcs) out k h =
    let (seen', added, rest) = >>=-eq-ok (add_entry purpose seen vc.credential_status) _ h in
    let (e, given, grown, fits) = add_entry_inv purpose seen vc.credential_status seen' added in
    let k' = subst (All Fits) (sym grown) (All-append Fits seen _ k (fits, tt)) in
    let (same, all_fit) = unique_indexes_inv purpose seen' vcs out k' rest in
    (same ∙ regroup seen (vc.credential_status) e (indexes vcs) seen' given grown, all_fit)

All-parsed :
    (ts : List Text)
    → All Fits ts
    → All (λ n. InArray bitstring_bytes (index_of n)) (map (parse_int 10) ts)
All-parsed [] h = h
All-parsed (t ∷ ts) (h, hs) = (h, All-parsed ts hs)

get_bit_lem :
    (c : Codec) (ns : List Number) (m : Number)
    → IsCodec c
    → All (λ n. InArray bitstring_bytes (index_of n)) ns
    → get_bit c (generate_bit_string c ns) m
      ≡ ok (bit_at (set_numbers (replicate bitstring_bytes 0) ns) (index_of m))
unfolding get_bit generate_bit_string
get_bit_lem c ns m is k =
    rw (is.decode-encode (c.gzip (set_numbers (replicate bitstring_bytes 0) ns)))
      (rw (is.inflate-gzip (set_numbers (replicate bitstring_bytes 0) ns)) refl)

-- Whether the number of an index text is one that a list was made of: never, if it is `NaN`.
abbrev pub revoked_in : List Number → Option ℕ → Bool
revoked_in ns none = false
revoked_in ns (some m) = listed ns m

bit_at_lem :
    (ns : List Number) (o : Option ℕ)
    → All (λ n. InArray bitstring_bytes (index_of n)) ns
    → bit_at (set_numbers (replicate bitstring_bytes 0) ns) o ≡ revoked_in ns o
bit_at_lem ns none k = refl
bit_at_lem ns (some m) k =
    let here =
      subst (λ l. All (λ n. InArray l (index_of n)) ns) (sym (length-replicate bitstring_bytes 0))
        k in
    set_numbers_lem ns (replicate bitstring_bytes 0) m (AreBytes-replicate bitstring_bytes) here
    ∙ ap (λ b. listed ns m || b) (has_bit-replicate bitstring_bytes m)
    ∙ or_false (listed ns m)

ok_injective : {A : Type 0} {a b : A} → ◌≡◌ {A = Result Error A} (ok a) (ok b) → a ≡ b
ok_injective h = cc

validate_indexes_inv :
    (purpose : Text) (vcs : List Credential) (ns : List Number)
    → validate_indexes purpose vcs ≡ ok ns
    → (ns ≡ map (parse_int 10) (indexes vcs)) × All Fits (indexes vcs)
unfolding validate_indexes
validate_indexes_inv purpose vcs ns h =
    let (out, unique, parsed) = >>=-eq-ok (unique_indexes purpose [] vcs) _ h in
    let (same, k) = unique_indexes_inv purpose [] vcs out tt unique in
    (sym (ok_injective parsed) ∙ ap (map (parse_int 10)) same, subst (All Fits) same k)

-- The subject of the list that revokes the numbers
abbrev pub list_of : Codec → Text → Text → List Number → StatusList
list_of c id purpose ns = record {
  id = id;
  status_purpose = purpose;
  encoded_list = generate_bit_string c ns;
}

create_inv :
    (c : Codec) (id purpose : Text) (vcs : List Credential) (list : StatusList)
    → create c id purpose vcs ≡ ok list
    → (list ≡ list_of c id purpose (map (parse_int 10) (indexes vcs))) × All Fits (indexes vcs)
unfolding create
create_inv c id purpose vcs list h =
    let (ns, validated, made) = >>=-eq-ok (validate_indexes purpose vcs) _ h in
    let (same, k) = validate_indexes_inv purpose vcs ns validated in
    (sym (ok_injective made) ∙ ap (list_of c id purpose) same, k)

encoded_given_lem :
    (c : Codec) (ns : List Number) → IsCodec c → truthy (generate_bit_string c ns) ≡ true
unfolding generate_bit_string
encoded_given_lem c ns is = is.encode_given (set_numbers (replicate bitstring_bytes 0) ns)

validate_list_of :
    (c : Codec) (id : Text) (ns : List Number) (e : Entry)
    → IsCodec c
    → truthy e.status_purpose ≡ true
    → All (λ n. InArray bitstring_bytes (index_of n)) ns
    → validate_credential_in_status_list c
        (record { credential_status = some e })
        (list_of c id e.status_purpose ns)
      ≡ ok (revoked_in ns (index_of (parse_int 10 e.status_list_index)))
unfolding validate_credential_in_status_list validate_entry
validate_list_of c id ns e is given k = rw given (
    rw ((===_iff e.status_purpose e.status_purpose).1 refl)
      (rw (encoded_given_lem c ns is) (get_bit_lem c ns _ is k ∙ ap ok (bit_at_lem ns _ k))))

-- A status list made of credentials, with codecs that read back what they wrote, tells of any entry
-- with the same purpose whether the number of its index is the number of an index of one of those
-- credentials. An index that is no number is never told as revoked, also if `create` was given it.
pub create-validate :
    (c : Codec) (id purpose : Text) (vcs : List Credential) (list : StatusList) (e : Entry)
    → IsCodec c
    → truthy purpose ≡ true
    → create c id purpose vcs ≡ ok list
    → e.status_purpose ≡ purpose
    → validate_credential_in_status_list c (record { credential_status = some e }) list
      ≡ ok (
          revoked_in
            (map (parse_int 10) (indexes vcs))
            (index_of (parse_int 10 e.status_list_index)))
create-validate c id purpose vcs list e is given made same =
    let (shape, k) = create_inv c id purpose vcs list made in
    let ns = map (parse_int 10) (indexes vcs) in
    ap (validate_credential_in_status_list c (record { credential_status = some e }))
      (shape ∙ ap (λ p. list_of c id p ns) (sym same))
    ∙ validate_list_of c id ns e is (ap truthy same ∙ given) (All-parsed (indexes vcs) k)
