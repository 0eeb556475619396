-- ===== src/Dids/Dht/Pairs.antt =====
-- The pairs of a TXT record, written and read (packages/dids/src/methods/did-dht.ts).
use web5_js.Base.{
  split, ℕ, Text, Option, none, some, List, [], ◌∷◌, ◌++◌, map, Bool, true, false, if◌then◌else◌,
  ◌===◌, ===_refl, ◌==◌, ==_iff, not, ◌&&◌, lookup, insert, lookup-insert, split-join, split-cut,
  split-Lacks, Lacks, All, All-append, ◌≡◌, ◌≢◌, refl, sym, ap, ◌∙◌, Bool-cases, inl, inr,
}
use web5_js.Dids.Dht.Names.{insert_all}
use web5_js.Dids.Dht.Types.{text, TxtData, single}
use web5_js.Dids.Dht.Txt.{
  Object, add_property, object_of, flat, property, parse_txt_data_to_string,
  parse_txt_data_to_object,
}
use web5_js.Dids.Dht.ToPacket.{pair_text, pairs_text, pair_if}

-- Neither separator is in the text.
abbrev pub IsClear : Text → Type 0
IsClear t = Lacks b';' t × Lacks b'=' t

abbrev pub AreClear : List (Text × Text) → Type 0
AreClear = All (λ p. IsClear p.0 × IsClear p.1)

-- A test for literals
abbrev pub lacks : ℕ → Text → Bool
lacks c [] = true
lacks c (x ∷ s) = not (x == c) && lacks c s

pub lacks_sound : (c : ℕ) (s : Text) → lacks c s ≡ true → Lacks c s
lacks_sound c [] h = tt
lacks_sound c (x ∷ s) h = elim (Bool-cases (x == c)) [
  | inl e ↦ cc (rw e at h)
  | inr e ↦ ((λ f. cc (sym e ∙ (==_iff x c).1 f)), lacks_sound c s (rw e at h))
]

pub literal-IsClear : (t : Text) → (lacks b';' t && lacks b'=' t) ≡ true → IsClear t
literal-IsClear t h = elim (Bool-cases (lacks b';' t)) [
  | inl e ↦ (lacks_sound b';' t e, lacks_sound b'=' t (rw e at h))
  | inr e ↦ cc (rw e at h)
]

pub Lacks-append : (c : ℕ) (s t : Text) → Lacks c s → Lacks c t → Lacks c (s ++ t)
Lacks-append c s t h k = All-append (λ x. x ≢ c) s t h k

not_semicolon : ◌≢◌ {A = ℕ} b'=' b';'
not_semicolon e = cc

pair_text-clear : (k v : Text) → Lacks b';' k → Lacks b';' v → Lacks b';' (pair_text (k, v))
pair_text-clear k v h i = Lacks-append b';' k (b'=' ∷ v) h (not_semicolon, i)

pair_text-Lacks : (ps : List (Text × Text)) → AreClear ps → All (Lacks b';') (map pair_text ps)
pair_text-Lacks [] h = tt
pair_text-Lacks ((k, v) ∷ ps) (((hk, _), (hv, _)), h) =
    (pair_text-clear k v hk hv, pair_text-Lacks ps h)

add_property-pair_text :
    (k v : Text) (o : Object)
    → IsClear k
    → IsClear v
    → add_property (pair_text (k, v)) o ≡ insert k (some v) o
unfolding add_property
add_property-pair_text k v o (_, hk) (_, hv) =
    rw (split-cut b'=' k v hk, split-Lacks b'=' v hv) refl

object_of-pairs :
    (ps : List (Text × Text)) (o : Object)
    → AreClear ps
    → object_of (map pair_text ps) o ≡ insert_all some ps o
unfolding object_of
object_of-pairs [] o h = refl
object_of-pairs ((k, v) ∷ ps) o ((hk, hv), h) =
    ap (object_of (map pair_text ps)) (add_property-pair_text k v o hk hv)
    ∙ object_of-pairs ps (insert k (some v) o) h

-- The value of the last pair with the key, or a default
abbrev pub last_of : Text → List (Text × Text) → Option Text → Option Text
last_of k [] d = d
last_of k ((j, v) ∷ ps) d = last_of k ps (if j === k then some v else d)

pub last_of-append :
    (k : Text) (ps qs : List (Text × Text)) (d : Option Text)
    → last_of k (ps ++ qs) d ≡ last_of k qs (last_of k ps d)
last_of-append k [] qs d = refl
last_of-append k ((j, v) ∷ ps) qs d = last_of-append k ps qs (if j === k then some v else d)

flat-if :
    (b : Bool) (v : Text) (o : Option (Option Text))
    → flat (if b then some (some v) else o) ≡ (if b then some v else flat o)
flat-if true v o = refl
flat-if false v o = refl

property-insert :
    (k j v : Text) (o : Object)
    → property k (insert j (some v) o) ≡ (if j === k then some v else property k o)
unfolding property
property-insert k j v o = ap flat (lookup-insert j k (some v) o) ∙ flat-if (j === k) v (lookup k o)

property-insert_all :
    (k : Text) (ps : List (Text × Text)) (o : Object)
    → property k (insert_all some ps o) ≡ last_of k ps (property k o)
property-insert_all k [] o = refl
property-insert_all k ((j, v) ∷ ps) o =
    property-insert_all k ps (insert j (some v) o) ∙ ap (last_of k ps) (property-insert k j v o)

-- The object that is read from written pairs
pub parse-pairs_text :
    (utf8 : List ℕ → Text) (p : Text × Text) (ps : List (Text × Text)) (data' : TxtData)
    → AreClear (p ∷ ps)
    → parse_txt_data_to_string utf8 data' ≡ pairs_text (p ∷ ps)
    → parse_txt_data_to_object utf8 data' ≡ insert_all some (p ∷ ps) []
unfolding parse_txt_data_to_object pairs_text
parse-pairs_text utf8 p ps data' h written =
    ap (λ t. object_of (split b';' t) []) written
    ∙ ap (λ x. object_of x [])
        (split-join b';' (pair_text p) (map pair_text ps) (pair_text-Lacks (p ∷ ps) h))
    ∙ object_of-pairs (p ∷ ps) [] h

-- A property of it is the value of the last pair with its key.
pub property-pairs_text :
    (utf8 : List ℕ → Text) (k : Text) (p : Text × Text) (ps : List (Text × Text))
    → AreClear (p ∷ ps)
    → property k (parse_txt_data_to_object utf8 (single (text (pairs_text (p ∷ ps)))))
      ≡ last_of k (p ∷ ps) none
unfolding property lookup parse_txt_data_to_string
property-pairs_text utf8 k p ps h =
    ap (property k) (parse-pairs_text utf8 p ps (single (text (pairs_text (p ∷ ps)))) h refl)
    ∙ property-insert_all k (p ∷ ps) []

-- A pair with another key changes nothing.
pub last_of-pair_if :
    (b : Bool) (k j v : Text) (d : Option Text)
    → (j === k) ≡ false
    → last_of k (pair_if b j v) d ≡ d
last_of-pair_if true k j v d h = rw h refl
last_of-pair_if false k j v d h = refl

pub last_of-own :
    (b : Bool) (k v : Text) (d : Option Text)
    → last_of k (pair_if b k v) d ≡ (if b then some v else d)
last_of-own true k v d = rw (===_refl k) refl
last_of-own false k v d = refl

pub AreClear-append : (ps qs : List (Text × Text)) → AreClear ps → AreClear qs → AreClear (ps ++ qs)
AreClear-append ps qs h k = All-append (λ p. IsClear p.0 × IsClear p.1) ps qs h k

pub pair_if-AreClear : (b : Bool) (k v : Text) → IsClear k → IsClear v → AreClear (pair_if b k v)
pair_if-AreClear true k v h i = ((h, i), tt)
pair_if-AreClear false k v h i = tt
