-- ===== src/Dids/Dht/Values.antt =====
-- Values that are a text or texts between commas, and the records that hold one (packages/dids/src/methods/did-dht.ts).
use web5_js.Base.{
  ℕ, Text, codes, Option, none, some, List, [], ◌∷◌, ◌++◌, map, true, false, ◌==◌, ===_refl, any,
  truthy, starts_with, split, join, split-join, Lacks, All, ◌≡◌, ◌≢◌, refl, ◌∙◌, ◌≤◌, arith,
}
use web5_js.Base.Decimal.{decimal, number, number-decimal, decimal-Lacks}
use web5_js.Dids.Dht.Types.{Value, one, many, text, single, Answer, Keys}
use web5_js.Dids.Dht.Txt.{parse_txt_data_to_string, property, parse_txt_data_to_object}
use web5_js.Dids.Dht.ToPacket.{
  value_text, also_known_as_answers, controller_answers, DidType, type_integer, integer_text,
  type_answers, record_name, pairs_text,
}
use web5_js.Dids.Dht.FromPacket.{
  Decoded, value_of, values_of, process_answers, process_answer, process_record, record_id_of,
}
use web5_js.Dids.Dht.Pairs.{
  IsClear, lacks, lacks_sound, Lacks-append, literal-IsClear, property-pairs_text,
}
use web5_js.Dids.Dht.Methods.{decimal-IsClear}
use web5_js.Dids.Dht.Segments.{record_id_of-name}

-- Texts that can be joined by commas: one at least, and none with a comma
abbrev pub AreItems : List Text → Type 0
AreItems [] = ⊥
AreItems (t ∷ ts) = All (Lacks b',') (t ∷ ts)

-- A value that is read as it was: an array has two texts at least.
abbrev pub IsValue : Value → Type 0
IsValue (one t) = Lacks b',' t
IsValue (many []) = ⊥
IsValue (many (t ∷ [])) = ⊥
IsValue (many (t ∷ u ∷ ts)) = All (Lacks b',') (t ∷ u ∷ ts)

any-Lacks : (t : Text) → Lacks b',' t → any (λ c. c == b',') t ≡ false
any-Lacks [] h = refl
any-Lacks (x ∷ t) (p, h) = ground (arith, any-Lacks t h)

any-comma : (s t : Text) → any (λ c. c == b',') (s ++ (b',' ∷ t)) ≡ true
any-comma [] t = refl
any-comma (x ∷ s) t = ground (arith, any-comma s t)

pub split-items : (ts : List Text) → AreItems ts → split b',' (join b',' ts) ≡ ts
split-items [] h = absurd h
split-items (t ∷ ts) h = split-join b',' t ts h

pub value_of-value_text : (v : Value) → IsValue v → value_of (value_text v) ≡ v
unfolding value_of value_text join
value_of-value_text (one t) h = rw (any-Lacks t h) refl
value_of-value_text (many []) h = absurd h
value_of-value_text (many (t ∷ [])) h = absurd h
value_of-value_text (many (t ∷ u ∷ ts)) h = rw (joined, split-join b',' t (u ∷ ts) h) refl
  where
    joined : any (λ c. c == b',') (join b',' (t ∷ u ∷ ts)) ≡ true
    joined = any-comma t (join b',' (u ∷ ts))

pub values_of-join : (ts : List Text) → AreItems ts → values_of (join b',' ts) ≡ ts
unfolding values_of join
values_of-join [] h = absurd h
values_of-join (t ∷ []) (h, _) = rw (any-Lacks t h) refl
values_of-join (t ∷ u ∷ ts) h =
    rw (any-comma t (join b',' (u ∷ ts)), split-join b',' t (u ∷ ts) h) refl

pub Lacks-join :
    (c : ℕ) (ts : List Text) → ◌≢◌ {A = ℕ} b',' c → All (Lacks c) ts → Lacks c (join b',' ts)
unfolding join
Lacks-join c [] n h = tt
Lacks-join c (t ∷ []) n (h, _) = h
Lacks-join c (t ∷ u ∷ ts) n (h, k) = Lacks-append c t _ h (n, Lacks-join c (u ∷ ts) n k)

-- A joined text is empty only for one empty text.
pub truthy-join : (t : Text) (ts : List Text) → truthy t ≡ true → truthy (join b',' (t ∷ ts)) ≡ true
unfolding join truthy
truthy-join [] ts h = cc
truthy-join (x ∷ t) [] h = refl
truthy-join (x ∷ t) (u ∷ ts) h = refl

abbrev pub decimals : List ℕ → List Text
decimals = map decimal

decimals-Lacks :
    (c : ℕ) (ns : List ℕ) → ((n : ℕ) → Lacks c (decimal n)) → All (Lacks c) (decimals ns)
decimals-Lacks c [] h = tt
decimals-Lacks c (n ∷ ns) h = (h n, decimals-Lacks c ns h)

numbers-decimals : (ns : List ℕ) → map number (decimals ns) ≡ map some ns
numbers-decimals [] = refl
numbers-decimals (n ∷ ns) = rw (number-decimal n, numbers-decimals ns) refl

abbrev pub AreAlso : Option (List Text) → Type 0
AreAlso none = Unit
AreAlso (some ts) = AreItems ts

-- An empty text is a controller that is not there.
abbrev pub IsController : Option Value → Type 0
IsController none = Unit
IsController (some (one t)) = (truthy t ≡ true) × Lacks b',' t
IsController (some (many ts)) = IsValue (many ts)

not_comma : (n : ℕ) → Lacks b',' (decimal n)
not_comma n = decimal-Lacks b',' n λ (low, high). apart low
  where
    apart : 48 ≤ 44 → ⊥
    apart h = omega arith

items-IsClear : (ns : List ℕ) → IsClear (join b',' (decimals ns))
items-IsClear ns = (
  Lacks-join b';' (decimals ns) not_semicolon (decimals-Lacks b';' ns λ n. (decimal-IsClear n).0),
  Lacks-join b'=' (decimals ns) not_equals (decimals-Lacks b'=' ns λ n. (decimal-IsClear n).1),
)
  where
    not_semicolon : ◌≢◌ {A = ℕ} b',' b';'
    not_semicolon e = cc

    not_equals : ◌≢◌ {A = ℕ} b',' b'='
    not_equals e = cc

types_property :
    (utf8 : List ℕ → Text) (n : ℕ) (ns : List ℕ)
    → property (codes "id") (
        parse_txt_data_to_object utf8
          (single (text (codes "id=" ++ join b',' (decimals (n ∷ ns))))))
      ≡ some (join b',' (decimals (n ∷ ns)))
unfolding pairs_text join
types_property utf8 n ns =
    property-pairs_text utf8 (codes "id") (codes "id", join b',' (decimals (n ∷ ns))) []
      ((literal-IsClear (codes "id") refl, items-IsClear (n ∷ ns)), tt)
    ∙ rw (===_refl (codes "id")) refl

-- Every type is a number or a registered name.
abbrev pub AreRegistered : List DidType → Type 0
AreRegistered = All (λ t. (n : ℕ) × (type_integer t ≡ some n))

integers_exist :
    (ts : List DidType) → AreRegistered ts → (ns : List ℕ) × (map type_integer ts ≡ map some ns)
integers_exist [] h = ([], refl)
integers_exist (t ∷ ts) ((n, e), h) =
    let (ns, es) = integers_exist ts h in (n ∷ ns, rw (e, es) refl)

texts-decimals : (ns : List ℕ) → map integer_text (map some ns) ≡ decimals ns
texts-decimals [] = refl
texts-decimals (n ∷ ns) = rw (texts-decimals ns) refl

-- The name of a record tells its kind.
abbrev record_kind : (id : Text) → lacks b'.' id ≡ true → record_id_of (record_name id) ≡ id
record_kind id h = record_id_of-name id (lacks_sound b'.' id h)

module _ (keys : Keys) where
  abbrev pub with_also : Option (List Text) → Decoded keys.Jwk → Decoded keys.Jwk
  with_also none s = s
  with_also (some ts) s = record s { document = record s.document { also_known_as = some ts } }

  abbrev pub with_controller : Option Value → Decoded keys.Jwk → Decoded keys.Jwk
  with_controller none s = s
  with_controller (some v) s = record s { document = record s.document { controller = some v } }

  abbrev pub with_types : List DidType → Decoded keys.Jwk → Decoded keys.Jwk
  with_types [] s = s
  with_types (t ∷ ts) s = record s { types = some (map type_integer (t ∷ ts)) }

  -- The other names are read back.
  pub also_known_as_answers-read :
      (also : Option (List Text)) (rest : List Answer) (s : Decoded keys.Jwk)
      → AreAlso also
      → process_answers keys (also_known_as_answers also ++ rest) s
        ≡ process_answers keys rest (with_also also s)
  unfolding also_known_as_answers process_answers process_answer process_record
      parse_txt_data_to_string starts_with
  also_known_as_answers-read none rest s h = refl
  also_known_as_answers-read (some ts) rest s h =
      rw (record_kind (codes "aka") refl, split-items ts h) refl

  pub controller_answers-read :
      (v : Option Value) (rest : List Answer) (s : Decoded keys.Jwk)
      → IsController v
      → process_answers keys (controller_answers v ++ rest) s
        ≡ process_answers keys rest (with_controller v s)
  unfolding controller_answers process_answers process_answer process_record
      parse_txt_data_to_string starts_with value_text
  controller_answers-read none rest s h = refl
  controller_answers-read (some (one t)) rest s (given, h) =
      rw (given, record_kind (codes "cnt") refl, value_of-value_text (one t) h) refl
  controller_answers-read (some (many ts)) rest s h =
      rw (record_kind (codes "cnt") refl, value_of-value_text (many ts) h) refl

  pub type_answers-read :
      (ts : List DidType) (rest : List Answer) (s : Decoded keys.Jwk)
      → AreRegistered ts
      → process_answers keys (type_answers ts ++ rest) s
        ≡ process_answers keys rest (with_types ts s)
  unfolding type_answers process_answers process_answer process_record parse_txt_data_to_string
      starts_with
  type_answers-read [] rest s h = refl
  type_answers-read (t ∷ ts) rest s ((n, e), h) =
      let (ns, es) = integers_exist ts h in
      rw
        (
          e,
          es,
          texts-decimals ns,
          record_kind (codes "typ") refl,
          types_property keys.utf8_to_text n ns,
          split-items (decimals (n ∷ ns)) (decimals-Lacks b',' (n ∷ ns) not_comma),
          number-decimal n,
          numbers-decimals ns,
        )
        refl
