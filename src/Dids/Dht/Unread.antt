-- ===== src/Dids/Dht/Unread.antt =====
-- The record of a P-256 key, which is written and cannot be read (packages/dids/src/methods/did-dht.ts).
use web5_js.Base.{
  ℕ, Text, codes, none, some, List, includes, truthy, true, not, ◌===◌, ◌&&◌, starts_with, ok, err,
  ◌≡◌, refl, ap, ◌∙◌,
}
use web5_js.Base.Decimal.{number, number-none}
use web5_js.Dids.Dht.Types.{invalid_public_key_type, VerificationMethod, text, single, Keys}
use web5_js.Dids.Dht.Txt.{Object, property, parse_txt_data_to_object}
use web5_js.Dids.Dht.ToPacket.{
  default_algorithm, registered_key_type, has_converter, required_curve, written, fragment,
  pairs_text, key_bytes, key_pairs, key_answer, key_record_id, txt_answer, same_text,
}
use web5_js.Dids.Dht.FromPacket.{Decoded, key_of_bytes, method_of, process_record, process_answer}
use web5_js.Dids.Dht.Pairs.{IsClear, AreClear, literal-IsClear}
use web5_js.Dids.Dht.Layout.{layout, layout-AreClear, layout-property, layout-k, layout-t}
use web5_js.Dids.Dht.Segments.{record_id_of-name, key_record_id-Lacks}

p256_type : registered_key_type (codes "P-256") ≡ none
unfolding registered_key_type ◌===◌
p256_type = refl

p256_converter : has_converter (codes "P-256") ≡ true
unfolding has_converter includes ◌===◌
p256_converter = refl

p256_required : required_curve (some (codes "P-256")) ≡ ok (codes "P-256")
unfolding includes truthy ◌===◌
p256_required = refl

undefined_number : number (codes "undefined") ≡ none
undefined_number = number-none b'u' (codes "ndefined") refl

module _ (keys : Keys) where
  -- A P-256 key that its encodings are fit for
  pub record IsUnread (method : VerificationMethod keys.Jwk) : Type 0 where
    pub key : keys.Jwk
    pub has_key : method.public_key ≡ some key
    pub has_curve : keys.curve key ≡ some (codes "P-256")
    pub key_bytes : List ℕ
    pub to_bytes : keys.public_key_to_bytes (codes "P-256") key ≡ ok key_bytes
    pub of_base64url : keys.base64url_to_bytes (keys.bytes_to_base64url key_bytes) ≡ ok key_bytes
    pub base64url_clear : IsClear (keys.bytes_to_base64url key_bytes)
    pub id_clear : IsClear (fragment method.id)
    pub algorithm_clear : IsClear (written (keys.algorithm key))
    pub controller_clear : IsClear method.controller

  method_of-undefined :
      (did id k : Text) (o : Object) (b : List ℕ)
      → property (codes "k") o ≡ some k
      → property (codes "t") o ≡ some (codes "undefined")
      → keys.base64url_to_bytes k ≡ ok b
      → method_of keys did id o ≡ err invalid_public_key_type
  unfolding method_of key_of_bytes
  method_of-undefined did id k o b hk ht hb = rw (hk, hb, ht, undefined_number) refl

  module _ (did : Text) (i : ℕ) (method : VerificationMethod keys.Jwk) (m : IsUnread method) where
    abbrev p256_layout : List (Text × Text)
    p256_layout =
        layout
          (not (fragment method.id === codes "0")
            && not (keys.thumbprint m.key === fragment method.id))
          (fragment method.id) (codes "undefined") (keys.bytes_to_base64url m.key_bytes)
          (not (same_text (keys.algorithm m.key) none)) (written (keys.algorithm m.key))
          (not (method.controller === did)) method.controller

    p256_layout-AreClear : AreClear p256_layout
    p256_layout-AreClear =
        layout-AreClear _ (fragment method.id) (codes "undefined") _ _ _ _ method.controller
          m.id_clear (literal-IsClear (codes "undefined") refl) m.base64url_clear m.algorithm_clear
          m.controller_clear

    p256_pairs :
        key_pairs keys did method m.key (codes "P-256") (keys.bytes_to_base64url m.key_bytes)
        ≡ p256_layout
    unfolding key_pairs default_algorithm
    p256_pairs = rw p256_type refl

    p256_answer :
        key_answer keys did i method ≡ ok (txt_answer (key_record_id i) (pairs_text p256_layout))
    unfolding key_answer key_bytes key_pairs
    p256_answer =
        rw (m.has_key, m.has_curve, p256_required, p256_converter, m.to_bytes)
          (ap (λ ps. ok (txt_answer (key_record_id i) (pairs_text ps))) p256_pairs)

  -- The record of a P-256 key whose ID's fragment, algorithm, controller and base64url text have no
  -- separator of the pairs in them, and whose bytes are read back from base64url, is written with the
  -- key type `undefined`, and reading the record throws in every state.
  pub process_answer-P256 :
      (did : Text) (i : ℕ) (method : VerificationMethod keys.Jwk)
      → IsUnread method
      → (record_text : Text) × (key_answer keys did i method
          ≡ ok (txt_answer (key_record_id i) record_text))
        × (property
              (codes "t")
              (parse_txt_data_to_object keys.utf8_to_text (single (text record_text)))
            ≡ some (codes "undefined"))
        × ((s : Decoded keys.Jwk)
            → process_answer keys (txt_answer (key_record_id i) record_text) s
              ≡ err invalid_public_key_type)
  unfolding process_answer process_record starts_with
  process_answer-P256 did i method m = (
    pairs_text (p256_layout did i method m),
    p256_answer did i method m,
    layout-property _ _ _ _ _ _ _ _ keys.utf8_to_text (codes "t")
          (p256_layout-AreClear did i method m)
        ∙ layout-t _ _ _ _ _ _ _ _,
    λ s.
        let read = λ (j : Text).
          layout-property _ _ _ _ _ _ _ _ keys.utf8_to_text j
            (p256_layout-AreClear did i method m) in
        rw
          (
            record_id_of-name (key_record_id i) (key_record_id-Lacks i),
            method_of-undefined s.document.id (key_record_id i)
                (keys.bytes_to_base64url m.key_bytes)
                (parse_txt_data_to_object keys.utf8_to_text
                  (single (text (pairs_text (p256_layout did i method m)))))
                m.key_bytes (read (codes "k") ∙ layout-k _ _ _ _ _ _ _ _)
                (read (codes "t") ∙ layout-t _ _ _ _ _ _ _ _) m.of_base64url,
          )
          refl,
  )
