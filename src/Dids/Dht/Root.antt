-- ===== src/Dids/Dht/Root.antt =====
-- The root record, written and read (packages/dids/src/methods/did-dht.ts).
use web5_js.Base.{
  suc, all, not, true, take, drop, Bool-cases, inl, inr, ℕ, suc, ◌<◌, ◌⊎◌, Text, codes, Option,
  none, some, List, [], ◌∷◌, ◌++◌, false, if◌then◌else◌, ◌===◌, ===_refl, join, Lacks, All, ◌≡◌,
  ◌≢◌, refl, ap, ◌∙◌,
}
use web5_js.Base.Decimal.{decimal}
use web5_js.Dids.Dht.Types.{VerificationMethod, Document, Keys}
use web5_js.Dids.Dht.ToPacket.{
  key_record_id, service_record_id, id_lookup, record_ids, relationship_pair, list_pair, root_pairs,
}
use web5_js.Dids.Dht.Pairs.{
  IsClear, AreClear, AreClear-append, literal-IsClear, last_of, last_of-append,
}
use web5_js.Dids.Dht.Segments.{AreMethods}
use web5_js.Dids.Dht.Relationships.{
  numbered-Lacks, join-IsClear, IsRelationship, rel_text, relationship_pair-AreClear,
}

-- The relationships of a root record, with their names, and other pairs after them
abbrev pairs_of :
    List (Text × Text) → List (Text × Option (List Text)) → List (Text × Text) → List (Text × Text)
pairs_of ids [] tail = tail
pairs_of ids ((name, r) ∷ rs) tail = relationship_pair ids name r ++ pairs_of ids rs tail

abbrev AreOther : Text → List (Text × Option (List Text)) → Type 0
AreOther k = All (λ p. (p.0 === k) ≡ false)

last_of-other :
    (k name : Text) (ids : List (Text × Text)) (r : Option (List Text)) (d : Option Text)
    → (name === k) ≡ false
    → last_of k (relationship_pair ids name r) d ≡ d
unfolding relationship_pair
last_of-other k name ids none d h = refl
last_of-other k name ids (some ms) d h = rw h refl

last_of-pairs_of :
    (k : Text) (ids : List (Text × Text)) (rs : List (Text × Option (List Text)))
    (tail : List (Text × Text)) (d : Option Text)
    → AreOther k rs
    → last_of k (pairs_of ids rs tail) d ≡ last_of k tail d
last_of-pairs_of k ids [] tail d h = refl
last_of-pairs_of k ids ((name, r) ∷ rs) tail d (h, hs) =
    last_of-append k (relationship_pair ids name r) (pairs_of ids rs tail) d
    ∙ ap (last_of k (pairs_of ids rs tail)) (last_of-other k name ids r d h)
    ∙ last_of-pairs_of k ids rs tail d hs

last_of-own_relationship :
    (keys : Keys) (did : Text) (ms : List (VerificationMethod keys.Jwk)) (name : Text)
    (r : Option (List Text))
    → last_of name (relationship_pair (id_lookup keys 0 ms []) name r) none ≡ rel_text keys did ms r
unfolding relationship_pair
last_of-own_relationship keys did ms name none = refl
last_of-own_relationship keys did ms name (some ids) = rw (===_refl name) refl

last_of-pairs_of-own :
    (keys : Keys) (did : Text) (ms : List (VerificationMethod keys.Jwk)) (k : Text)
    (r : Option (List Text)) (before after : List (Text × Option (List Text)))
    (tail : List (Text × Text))
    → AreOther k before
    → AreOther k after
    → ((d : Option Text) → last_of k tail d ≡ d)
    → last_of k (pairs_of (id_lookup keys 0 ms []) (before ++ ((k, r) ∷ after)) tail) none
      ≡ rel_text keys did ms r
last_of-pairs_of-own keys did ms k r [] after tail h hs none_after =
    last_of-append k (relationship_pair (id_lookup keys 0 ms []) k r)
      (pairs_of (id_lookup keys 0 ms []) after tail) none
    ∙ last_of-pairs_of k (id_lookup keys 0 ms []) after tail _ hs
    ∙ none_after _
    ∙ last_of-own_relationship keys did ms k r
last_of-pairs_of-own keys did ms k r ((name, q) ∷ before) after tail (h, hs) ks none_after =
    last_of-append k (relationship_pair (id_lookup keys 0 ms []) name q)
      (pairs_of (id_lookup keys 0 ms []) (before ++ ((k, r) ∷ after)) tail) none
    ∙ ap (last_of k (pairs_of (id_lookup keys 0 ms []) (before ++ ((k, r) ∷ after)) tail))
        (last_of-other k name (id_lookup keys 0 ms []) q none h)
    ∙ last_of-pairs_of-own keys did ms k r before after tail hs ks none_after

pairs_of-AreClear :
    (keys : Keys) (did : Text) (ms : List (VerificationMethod keys.Jwk)) (plain : Lacks b'#' did)
    (methods : AreMethods keys did 0 ms) (rs : List (Text × Option (List Text)))
    (tail : List (Text × Text))
    → All (λ p. IsClear p.0 × IsRelationship keys did ms p.1) rs
    → AreClear tail
    → AreClear (pairs_of (id_lookup keys 0 ms []) rs tail)
pairs_of-AreClear keys did ms plain methods [] tail h ht = ht
pairs_of-AreClear keys did ms plain methods ((name, r) ∷ rs) tail ((n, h), hs) ht =
    AreClear-append (relationship_pair (id_lookup keys 0 ms []) name r)
      (pairs_of (id_lookup keys 0 ms []) rs tail)
      (relationship_pair-AreClear keys did ms plain methods name r n h)
      (pairs_of-AreClear keys did ms plain methods rs tail hs ht)

last_of-list_pair :
    (k name : Text) (ids : List Text) (d : Option Text)
    → (name === k) ≡ false
    → last_of k (list_pair name ids) d ≡ d
last_of-list_pair k name [] d h = refl
last_of-list_pair k name (id ∷ ids) d h = rw h refl

record_ids-Lacks :
    {A : Type 0} (c l i : ℕ) (xs : List A)
    → l ≢ c
    → c < 48 ⊎ 57 < c
    → All (Lacks c) (record_ids (λ n. l ∷ decimal n) i xs)
unfolding record_ids
record_ids-Lacks c l i [] n out = tt
record_ids-Lacks c l i (x ∷ xs) n out =
    (numbered-Lacks c l i n out, record_ids-Lacks c l (suc i) xs n out)

list_pair-AreClear :
    (name : Text) (ts : List Text)
    → IsClear name
    → IsClear (join b',' ts)
    → AreClear (list_pair name ts)
list_pair-AreClear name [] n h = tt
list_pair-AreClear name (t ∷ ts) n h = ((n, h), tt)

keys-IsClear : {A : Type 0} (xs : List A) → IsClear (join b',' (record_ids key_record_id 0 xs))
keys-IsClear xs =
    join-IsClear (record_ids key_record_id 0 xs) λ c (out, n, _). record_ids-Lacks c b'k' 0 xs n out

services-IsClear :
    {A : Type 0} (xs : List A) → IsClear (join b',' (record_ids service_record_id 0 xs))
services-IsClear xs =
    join-IsClear (record_ids service_record_id 0 xs)
      λ c (out, _, n). record_ids-Lacks c b's' 0 xs n out

module _ (keys : Keys) (d : Document keys.Jwk) where
  abbrev relationships : List (Text × Option (List Text))
  relationships =
      (codes "auth", d.authentication)
      ∷ (codes "asm", d.assertion_method)
      ∷ (codes "agm", d.key_agreement)
      ∷ (codes "inv", d.capability_invocation)
      ∷ (codes "del", d.capability_delegation)
      ∷ []

  abbrev pub own_root : List (Text × Text)
  own_root = root_pairs (id_lookup keys 0 d.verification_method []) d

  abbrev service_pair : List (Text × Text)
  service_pair = list_pair (codes "svc") (record_ids service_record_id 0 d.service)

  -- A relationship is what the root record has for its name.
  root-own :
      (k : Text) (r : Option (List Text)) (before after : List (Text × Option (List Text)))
      → relationships ≡ before ++ ((k, r) ∷ after)
      → AreOther k before
      → AreOther k after
      → ((codes "v" === k) ≡ false) × ((codes "vm" === k) ≡ false) × ((codes "svc" === k) ≡ false)
      → last_of k own_root none ≡ rel_text keys d.id d.verification_method r
  unfolding root_pairs
  root-own k r before after place h hs (v, vm, svc) =
      last_of-append k
        ((codes "v", codes "0")
          ∷ list_pair (codes "vm") (record_ids key_record_id 0 d.verification_method))
        _ none
      ∙ ap
          (last_of k
            (pairs_of (id_lookup keys 0 d.verification_method []) relationships service_pair))
          (ap
              (λ b.
                last_of k
                  (list_pair (codes "vm") (record_ids key_record_id 0 d.verification_method))
                  (if b then some (codes "0") else none))
              v
            ∙ last_of-list_pair k (codes "vm") (record_ids key_record_id 0 d.verification_method)
                none vm)
      ∙ ap
          (λ rs.
            last_of k (pairs_of (id_lookup keys 0 d.verification_method []) rs service_pair) none)
          place
      ∙ last_of-pairs_of-own keys d.id d.verification_method k r before after service_pair h hs
          (λ e. last_of-list_pair k (codes "svc") (record_ids service_record_id 0 d.service) e svc)

  others_sound :
      (k : Text) (rs : List (Text × Option (List Text)))
      → all (λ p. not (p.0 === k)) rs ≡ true
      → AreOther k rs
  others_sound k [] h = tt
  others_sound k ((name, r) ∷ rs) h = elim (Bool-cases (name === k)) [
    | inl e ↦ cc (rw e at h)
    | inr e ↦ (e, others_sound k rs (rw e at h))
  ]

  -- The same, for the place of the name
  pub root-at :
      (k : Text) (r : Option (List Text)) (i : ℕ)
      → relationships ≡ take i relationships ++ ((k, r) ∷ drop (suc i) relationships)
      → all (λ p. not (p.0 === k)) (take i relationships) ≡ true
      → all (λ p. not (p.0 === k)) (drop (suc i) relationships) ≡ true
      → ((codes "v" === k) ≡ false) × ((codes "vm" === k) ≡ false) × ((codes "svc" === k) ≡ false)
      → last_of k own_root none ≡ rel_text keys d.id d.verification_method r
  root-at k r i place before after named =
      root-own k r (take i relationships) (drop (suc i) relationships) place
        (others_sound k (take i relationships) before)
        (others_sound k (drop (suc i) relationships) after) named

  -- The relationships are of the document's verification methods.
  abbrev pub AreRelationships : Type 0
  AreRelationships = All (λ p. IsRelationship keys d.id d.verification_method p.1) relationships

  pub root-AreClear :
      Lacks b'#' d.id
      → AreMethods keys d.id 0 d.verification_method
      → AreRelationships
      → AreClear own_root
  unfolding root_pairs
  root-AreClear plain methods (auth, (asm, (agm, (inv, (del, _))))) = (
    (literal-IsClear (codes "v") refl, literal-IsClear (codes "0") refl),
    AreClear-append (list_pair (codes "vm") (record_ids key_record_id 0 d.verification_method))
        (pairs_of (id_lookup keys 0 d.verification_method []) relationships service_pair)
        (list_pair-AreClear (codes "vm") (record_ids key_record_id 0 d.verification_method)
          (literal-IsClear (codes "vm") refl) (keys-IsClear d.verification_method))
        (pairs_of-AreClear keys d.id d.verification_method plain methods relationships service_pair
          (
            (literal-IsClear (codes "auth") refl, auth),
            (
              (literal-IsClear (codes "asm") refl, asm),
              (
                (literal-IsClear (codes "agm") refl, agm),
                (
                  (literal-IsClear (codes "inv") refl, inv),
                  ((literal-IsClear (codes "del") refl, del), tt),
                ),
              ),
            ),
          )
          (list_pair-AreClear (codes "svc") (record_ids service_record_id 0 d.service)
            (literal-IsClear (codes "svc") refl) (services-IsClear d.service))),
  )
