-- ===== src/Dids/Dht/Relationships.antt =====
-- The relationships of the root record, written and read (packages/dids/src/methods/did-dht.ts).
use web5_js.Base.{
  ℕ, ◌≤◌, ◌<◌, ◌⊎◌, inl, inr, Text, Option, none, some, List, [], ◌∷◌, map, true, truthy, lookup,
  split, split-join, join, Lacks, All, ◌≡◌, ◌≢◌, refl, sym, ap, ◌∙◌, arith,
}
use web5_js.Base.Decimal.{decimal, decimal-Lacks}
use web5_js.Dids.Dht.Types.{VerificationMethod, Keys}
use web5_js.Dids.Dht.ToPacket.{fragment, or_empty, key_record_id, id_lookup, relationship_pair}
use web5_js.Dids.Dht.FromPacket.{method_ids, relationship}
use web5_js.Dids.Dht.Pairs.{IsClear, AreClear}
use web5_js.Dids.Dht.Values.{Lacks-join, truthy-join}
use web5_js.Dids.Dht.Segments.{AreMethods}
use web5_js.Dids.Dht.Records.{read_ids, HasMethod, Match-nil, id_lookup-Match, id_lookup-HasMethod}

pub numbered-Lacks : (c l i : ℕ) → l ≢ c → c < 48 ⊎ 57 < c → Lacks c (l ∷ decimal i)
numbered-Lacks c l i n h = (n, decimal-Lacks c i λ (low, high). apart c low high h)
  where
    apart : (c : ℕ) → 48 ≤ c → c ≤ 57 → c < 48 ⊎ 57 < c → ⊥
    apart c low high h = omega arith

key_record-comma : (i : ℕ) → Lacks b',' (key_record_id i)
key_record-comma i = numbered-Lacks b',' b'k' i (λ e. cc) (inl (omega arith))

-- A separator: `,`, `;` or `=`
abbrev pub IsApart : ℕ → Type 0
IsApart c = (c < 48 ⊎ 57 < c) × (◌≢◌ {A = ℕ} b'k' c) × (◌≢◌ {A = ℕ} b's' c)

semicolon-IsApart : IsApart b';'
semicolon-IsApart = (inr (omega arith), (λ e. cc), (λ e. cc))

equals-IsApart : IsApart b'='
equals-IsApart = (inr (omega arith), (λ e. cc), (λ e. cc))

pub join-IsClear :
    (ts : List Text) → ((c : ℕ) → IsApart c → All (Lacks c) ts) → IsClear (join b',' ts)
join-IsClear ts h = (
  Lacks-join b';' ts (λ e. cc) (h b';' semicolon-IsApart),
  Lacks-join b'=' ts (λ e. cc) (h b'=' equals-IsApart),
)

relationship-texts :
    (ids : List (Text × Text)) (t : Text) (texts : List Text)
    → truthy t ≡ true
    → split b',' t ≡ texts
    → relationship ids (some t) none ≡ some (method_ids ids texts)
unfolding relationship
relationship-texts ids t texts given e = rw (given, e) refl

module _ (keys : Keys) (did : Text) (ms : List (VerificationMethod keys.Jwk)) where
  -- Verification methods of the document, one at least
  abbrev pub IsRelationship : Option (List Text) → Type 0
  IsRelationship none = Unit
  IsRelationship (some []) = ⊥
  IsRelationship (some (id ∷ ids)) = All (λ id. HasMethod keys id ms) (id ∷ ids)

  abbrev written : List (Text × Text)
  written = id_lookup keys 0 ms []

  abbrev read : List (Text × Text)
  read = read_ids keys 0 ms []

  abbrev rel_texts : List Text → List Text
  rel_texts ids = map (λ id. or_empty (lookup (fragment id) written)) ids

  abbrev pub rel_text : Option (List Text) → Option Text
  rel_text none = none
  rel_text (some ids) = some (join b',' (rel_texts ids))

  module _ (plain : Lacks b'#' did) (methods : AreMethods keys did 0 ms) where
    record_of :
        (id : Text)
        → HasMethod keys id ms
        → (j : ℕ) × (lookup (fragment id) written ≡ some (key_record_id j))
          × (lookup (key_record_id j) read ≡ some id)
    record_of id h =
        let (whole, (r, e)) = id_lookup-HasMethod keys did id 0 ms [] plain methods h in
        let (n, m) = id_lookup-Match keys did 0 ms [] [] plain methods (Match-nil did) in
        let ((j, below, name), found) = m (fragment id) r e in
        (j, e ∙ ap some name, ap (λ x. lookup x read) (sym name) ∙ found ∙ ap some (sym whole))

    method_ids-rel :
        (ids : List Text)
        → All (λ id. HasMethod keys id ms) ids
        → method_ids read (rel_texts ids) ≡ ids
    unfolding method_ids
    method_ids-rel [] h = refl
    method_ids-rel (id ∷ ids) (h, hs) =
        let (j, e, found) = record_of id h in rw (e, found, method_ids-rel ids hs) refl

    rel_texts-Lacks :
        (c : ℕ) (ids : List Text)
        → ◌≢◌ {A = ℕ} b'k' c
        → c < 48 ⊎ 57 < c
        → All (λ id. HasMethod keys id ms) ids
        → All (Lacks c) (rel_texts ids)
    rel_texts-Lacks c [] n out h = tt
    rel_texts-Lacks c (id ∷ ids) n out (h, hs) =
        let (j, e, found) = record_of id h in
        (rw e (numbered-Lacks c b'k' j n out), rel_texts-Lacks c ids n out hs)

    rel_texts-given :
        (id : Text) (ids : List Text)
        → HasMethod keys id ms
        → truthy (join b',' (rel_texts (id ∷ ids))) ≡ true
    unfolding truthy
    rel_texts-given id ids h =
        let (j, e, found) = record_of id h in
        truthy-join (or_empty (lookup (fragment id) written)) (rel_texts ids) (rw e refl)

    split-rel :
        (id : Text) (ids : List Text)
        → All (λ id. HasMethod keys id ms) (id ∷ ids)
        → split b',' (join b',' (rel_texts (id ∷ ids))) ≡ rel_texts (id ∷ ids)
    split-rel id ids h =
        split-join b',' (or_empty (lookup (fragment id) written)) (rel_texts ids)
          (rel_texts-Lacks b',' (id ∷ ids) (λ e. cc) (inl (omega arith)) h)

    relationship-some :
        (id : Text) (ids : List Text)
        → All (λ id. HasMethod keys id ms) (id ∷ ids)
        → relationship read (some (join b',' (rel_texts (id ∷ ids)))) none ≡ some (id ∷ ids)
    relationship-some id ids h =
        relationship-texts read (join b',' (rel_texts (id ∷ ids))) (rel_texts (id ∷ ids))
          (rel_texts-given id ids h.0) (split-rel id ids h)
        ∙ ap some (method_ids-rel (id ∷ ids) h)

    -- The relationship is read back from its text.
    pub relationship-rel :
        (r : Option (List Text)) → IsRelationship r → relationship read (rel_text r) none ≡ r
    unfolding relationship
    relationship-rel none h = refl
    relationship-rel (some []) h = absurd h
    relationship-rel (some (id ∷ ids)) h = relationship-some id ids h

    rel_join-IsClear :
        (ids : List Text)
        → All (λ id. HasMethod keys id ms) ids
        → IsClear (join b',' (rel_texts ids))
    rel_join-IsClear ids h =
        join-IsClear (rel_texts ids) λ c (out, n, _). rel_texts-Lacks c ids n out h

    pub relationship_pair-AreClear :
        (name : Text) (r : Option (List Text))
        → IsClear name
        → IsRelationship r
        → AreClear (relationship_pair written name r)
    unfolding relationship_pair
    relationship_pair-AreClear name none n h = tt
    relationship_pair-AreClear name (some []) n h = absurd h
    relationship_pair-AreClear name (some (id ∷ ids)) n h = ((n, rel_join-IsClear (id ∷ ids) h), tt)
