-- ===== src/Dids/Dht/Layout.antt =====
-- The pairs of the record of a verification method (packages/dids/src/methods/did-dht.ts).
use web5_js.Base.{
  ℕ, Text, codes, none, some, List, [], ◌∷◌, ◌++◌, Bool, true, false, if◌then◌else◌, ◌===◌, ◌≡◌,
  refl, ap, ◌∙◌,
}
use web5_js.Dids.Dht.Types.{text, single}
use web5_js.Dids.Dht.Txt.{property, parse_txt_data_to_object}
use web5_js.Dids.Dht.ToPacket.{pairs_text, pair_if}
use web5_js.Dids.Dht.Pairs.{
  IsClear, AreClear, AreClear-append, literal-IsClear, last_of, last_of-append, last_of-pair_if,
  last_of-own, pair_if-AreClear, property-pairs_text,
}

-- The pairs of a record, for each of the three optional ones whether it is there
abbrev pub layout : Bool → Text → Text → Text → Bool → Text → Bool → Text → List (Text × Text)
layout p id t k q a r c =
    pair_if p (codes "id") id
    ++ ((codes "t", t) ∷ (codes "k", k) ∷ (pair_if q (codes "a") a ++ pair_if r (codes "c") c))

module _ (p : Bool) (id t k : Text) (q : Bool) (a : Text) (r : Bool) (c : Text) where
  abbrev pub pairs : List (Text × Text)
  pairs = layout p id t k q a r c

  pub layout-AreClear : IsClear id → IsClear t → IsClear k → IsClear a → IsClear c → AreClear pairs
  layout-AreClear hi ht hk ha hc =
      let back =
        AreClear-append (pair_if q (codes "a") a) (pair_if r (codes "c") c)
          (pair_if-AreClear q (codes "a") a (literal-IsClear (codes "a") refl) ha)
          (pair_if-AreClear r (codes "c") c (literal-IsClear (codes "c") refl) hc) in
      AreClear-append (pair_if p (codes "id") id)
        ((codes "t", t) ∷ (codes "k", k) ∷ (pair_if q (codes "a") a ++ pair_if r (codes "c") c))
        (pair_if-AreClear p (codes "id") id (literal-IsClear (codes "id") refl) hi)
        ((literal-IsClear (codes "t") refl, ht), ((literal-IsClear (codes "k") refl, hk), back))

  layout-last :
      (j : Text)
      → last_of j pairs none
        ≡ last_of j (pair_if r (codes "c") c) (
            last_of j (pair_if q (codes "a") a) (
              last_of j
                ((codes "t", t) ∷ (codes "k", k) ∷ [])
                (last_of j (pair_if p (codes "id") id) none)))
  layout-last j =
      last_of-append j (pair_if p (codes "id") id)
        ((codes "t", t) ∷ (codes "k", k) ∷ (pair_if q (codes "a") a ++ pair_if r (codes "c") c))
        none
      ∙ last_of-append j (pair_if q (codes "a") a) (pair_if r (codes "c") c) _

  pub layout-id : last_of (codes "id") pairs none ≡ (if p then some id else none)
  unfolding ◌===◌
  layout-id =
      layout-last (codes "id")
      ∙ last_of-pair_if r (codes "id") (codes "c") c _ refl
      ∙ last_of-pair_if q (codes "id") (codes "a") a _ refl
      ∙ last_of-own p (codes "id") id none

  pub layout-t : last_of (codes "t") pairs none ≡ some t
  unfolding ◌===◌
  layout-t =
      layout-last (codes "t")
      ∙ last_of-pair_if r (codes "t") (codes "c") c _ refl
      ∙ last_of-pair_if q (codes "t") (codes "a") a _ refl

  pub layout-k : last_of (codes "k") pairs none ≡ some k
  unfolding ◌===◌
  layout-k =
      layout-last (codes "k")
      ∙ last_of-pair_if r (codes "k") (codes "c") c _ refl
      ∙ last_of-pair_if q (codes "k") (codes "a") a _ refl

  pub layout-a : last_of (codes "a") pairs none ≡ (if q then some a else none)
  unfolding ◌===◌
  layout-a =
      layout-last (codes "a")
      ∙ last_of-pair_if r (codes "a") (codes "c") c _ refl
      ∙ last_of-own q (codes "a") a _
      ∙ ap (λ d. if q then some a else d) (last_of-pair_if p (codes "a") (codes "id") id none refl)

  pub layout-c : last_of (codes "c") pairs none ≡ (if r then some c else none)
  unfolding ◌===◌
  layout-c =
      layout-last (codes "c")
      ∙ last_of-own r (codes "c") c _
      ∙ ap (λ d. if r then some c else d)
          (last_of-pair_if q (codes "c") (codes "a") a _ refl
            ∙ last_of-pair_if p (codes "c") (codes "id") id none refl)

  -- The properties of the object that is read from the record
  pub layout-property :
      (utf8 : List ℕ → Text) (j : Text)
      → AreClear pairs
      → property j (parse_txt_data_to_object utf8 (single (text (pairs_text pairs))))
        ≡ last_of j pairs none
  layout-property utf8 j h = by_first p h
    where
      by_first :
          (p : Bool)
          → AreClear (layout p id t k q a r c)
          → property j
              (parse_txt_data_to_object utf8 (single (text (pairs_text (layout p id t k q a r c)))))
            ≡ last_of j (layout p id t k q a r c) none
      by_first true h = property-pairs_text utf8 j _ _ h
      by_first false h = property-pairs_text utf8 j _ _ h
