-- ===== src/Dids/Dht/Records.antt =====
-- The names of the records of verification methods, when written and when read (packages/dids/src/methods/did-dht.ts).
use web5_js.Base.{
  ℕ, suc, ◌<◌, Text, Option, some, List, [], ◌∷◌, ◌++◌, append_assoc, append-nil, true, false,
  if◌then◌else◌, ◌===◌, ===_iff, ===_refl, Bool-cases, inl, inr, ◌⊎◌, drop, lookup, insert,
  lookup-insert, Lacks, ◌≡◌, refl, sym, ap, subst, ◌∙◌, arith,
}
use web5_js.Base.Decimal.{decimal-injective}
use web5_js.Dids.Dht.Types.{VerificationMethod, Keys}
use web5_js.Dids.Dht.ToPacket.{fragment, key_record_id, id_lookup}
use web5_js.Dids.Dht.FromPacket.{Decoded, add_method}
use web5_js.Dids.Dht.Methods.{fragment-id}
use web5_js.Dids.Dht.Segments.{AreMethods, added}

key_record_id-injective : (i j : ℕ) → key_record_id i ≡ key_record_id j → i ≡ j
key_record_id-injective i j e = decimal-injective i j (ap (drop 1) e)

-- The record of each fragment is one of a number below `i`, and is that of the method with the fragment.
abbrev pub Match : Text → ℕ → List (Text × Text) → List (Text × Text) → Type 0
Match did i written read =
    (f r : Text)
    → lookup f written ≡ some r
    → ((j : ℕ) × (j < i) × (r ≡ key_record_id j)) × (lookup r read ≡ some (did ++ (b'#' ∷ f)))

pub Match-nil : (did : Text) → Match did 0 [] []
unfolding lookup
Match-nil did f r e = cc

Match-insert :
    (did g : Text) (i : ℕ) (written read : List (Text × Text))
    → Match did i written read
    → Match did
        (suc i)
        (insert g (key_record_id i) written)
        (insert (key_record_id i) (did ++ (b'#' ∷ g)) read)
Match-insert did g i written read m f r e = elim (Bool-cases (g === f)) [
  | inl same ↦
      let here =
        own g f r (lookup f written) same (sym (lookup-insert g f (key_record_id i) written) ∙ e) in
      (
        (i, omega arith, here),
        ap (λ x. lookup x (insert (key_record_id i) (did ++ (b'#' ∷ g)) read)) here
            ∙ lookup-insert (key_record_id i) (key_record_id i) (did ++ (b'#' ∷ g)) read
            ∙ rw (===_refl (key_record_id i))
                (ap (λ x. some (did ++ (b'#' ∷ x))) ((===_iff g f).0 same)),
      )
  | inr differ ↦
      let there =
        older g f r (lookup f written) differ
          (sym (lookup-insert g f (key_record_id i) written) ∙ e) in
      let ((j, below, name), found) = m f r there in
      (
        (j, omega arith, name),
        lookup-insert (key_record_id i) r (did ++ (b'#' ∷ g)) read
            ∙ rw (apart i j r below name) found,
      )
]
  where
    own :
        (g f r : Text) (o : Option Text)
        → (g === f) ≡ true
        → (if g === f then some (key_record_id i) else o) ≡ some r
        → r ≡ key_record_id i
    own g f r o s e = cc (rw s at e)

    older :
        (g f r : Text) (o : Option Text)
        → (g === f) ≡ false
        → (if g === f then some (key_record_id i) else o) ≡ some r
        → o ≡ some r
    older g f r o s e = rw s at e

    differs : (i j : ℕ) → j < i → i ≡ j → ⊥
    differs i j h e = omega arith

    apart : (i j : ℕ) (r : Text) → j < i → r ≡ key_record_id j → (key_record_id i === r) ≡ false
    apart i j r below name = elim (Bool-cases (key_record_id i === r)) [
      | inl e ↦ absurd (
          differs i j below
            (key_record_id-injective i j ((===_iff (key_record_id i) r).0 e ∙ name)))
      | inr e ↦ e
    ]

module _ (keys : Keys) where
  -- The names that reading the methods writes
  abbrev pub read_ids :
      ℕ → List (VerificationMethod keys.Jwk) → List (Text × Text) → List (Text × Text)
  read_ids i [] m = m
  read_ids i (method ∷ ms) m = read_ids (suc i) ms (insert (key_record_id i) method.id m)

  pub added_lem :
      (i : ℕ) (ms : List (VerificationMethod keys.Jwk)) (s : Decoded keys.Jwk)
      → added keys i ms s ≡ record s {
        document = record s.document { verification_method = s.document.verification_method ++ ms };
        ids = read_ids i ms s.ids;
      }
  added_lem i [] s =
      ap (λ l. record s { document = record s.document { verification_method = l } })
        (sym (append-nil s.document.verification_method))
  added_lem i (method ∷ ms) s =
      added_lem (suc i) ms (add_method keys (key_record_id i) method s)
      ∙ ap
          (λ l. record s {
            document = record s.document { verification_method = l };
            ids = read_ids (suc i) ms (insert (key_record_id i) method.id s.ids);
          })
          (append_assoc s.document.verification_method (method ∷ []) ms)

  -- A method has the ID.
  abbrev pub HasMethod : Text → List (VerificationMethod keys.Jwk) → Type 0
  HasMethod id [] = ⊥
  HasMethod id (method ∷ ms) = (method.id ≡ id) ⊎ HasMethod id ms

  pub id_lookup-Match :
      (did : Text) (i : ℕ) (ms : List (VerificationMethod keys.Jwk))
      (written read : List (Text × Text))
      → Lacks b'#' did
      → AreMethods keys did i ms
      → Match did i written read
      → (n : ℕ) × Match did n (id_lookup keys i ms written) (read_ids i ms read)
  unfolding id_lookup
  id_lookup-Match did i [] written read plain h m = (i, m)
  id_lookup-Match did i (method ∷ ms) written read plain (h, hs) m =
      id_lookup-Match did (suc i) ms (insert (fragment method.id) (key_record_id i) written)
        (insert (key_record_id i) method.id read) plain hs
        (subst
          (λ id.
            Match did (suc i) (insert (fragment id) (key_record_id i) written)
              (insert (key_record_id i) id read))
          (sym h.is_id)
          (subst
            (λ f.
              Match did (suc i) (insert f (key_record_id i) written)
                (insert (key_record_id i) (did ++ (b'#' ∷ h.id)) read))
            (sym (fragment-id did h.id plain h.id_plain)) (Match-insert did h.id i written read m)))

  abbrev IsFound : Text → List (Text × Text) → Type 0
  IsFound f m = (r : Text) × (lookup f m ≡ some r)

  insert-IsFound : (f g v : Text) (m : List (Text × Text)) → IsFound f m → IsFound f (insert g v m)
  insert-IsFound f g v m (r, e) = elim (Bool-cases (g === f)) [
    | inl same ↦ (v, lookup-insert g f v m ∙ rw same refl)
    | inr differ ↦ (r, lookup-insert g f v m ∙ rw differ e)
  ]

  id_lookup-IsFound :
      (f : Text) (i : ℕ) (ms : List (VerificationMethod keys.Jwk)) (m : List (Text × Text))
      → IsFound f m
      → IsFound f (id_lookup keys i ms m)
  unfolding id_lookup
  id_lookup-IsFound f i [] m h = h
  id_lookup-IsFound f i (method ∷ ms) m h =
      id_lookup-IsFound f (suc i) ms (insert (fragment method.id) (key_record_id i) m)
        (insert-IsFound f (fragment method.id) (key_record_id i) m h)

  -- The record of a method is found by the fragment of its ID.
  pub id_lookup-HasMethod :
      (did id : Text) (i : ℕ) (ms : List (VerificationMethod keys.Jwk)) (m : List (Text × Text))
      → Lacks b'#' did
      → AreMethods keys did i ms
      → HasMethod id ms
      → (id ≡ did ++ (b'#' ∷ fragment id)) × IsFound (fragment id) (id_lookup keys i ms m)
  unfolding id_lookup
  id_lookup-HasMethod did id i [] m plain h k = absurd k
  id_lookup-HasMethod did id i (method ∷ ms) m plain (h, hs) (inl e) =
      let same = ap fragment (sym e ∙ h.is_id) ∙ fragment-id did h.id plain h.id_plain in
      (
        sym e ∙ h.is_id ∙ ap (λ f. did ++ (b'#' ∷ f)) (sym same),
        id_lookup-IsFound (fragment id) (suc i) ms (insert (fragment method.id) (key_record_id i) m)
            (
              key_record_id i,
              lookup-insert (fragment method.id) (fragment id) (key_record_id i) m
                  ∙ rw (e, ===_refl (fragment id)) refl,
            ),
      )
  id_lookup-HasMethod did id i (method ∷ ms) m plain (h, hs) (inr k) =
      id_lookup-HasMethod did id (suc i) ms (insert (fragment method.id) (key_record_id i) m) plain
        hs k
