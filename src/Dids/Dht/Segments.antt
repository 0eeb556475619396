-- ===== src/Dids/Dht/Segments.antt =====
-- The records of the verification methods, one after the other (packages/dids/src/methods/did-dht.ts).
use web5_js.Base.{
  ℕ, suc, Text, codes, some, List, [], ◌∷◌, ◌++◌, ◌≤◌, not, ◌===◌, ◌&&◌, starts_with, split-cut,
  Lacks, ok, ◌≡◌, ◌≢◌, refl, ap, ◌∙◌, arith,
}
use web5_js.Base.Decimal.{decimal, decimal-Lacks}
use web5_js.Dids.Dht.Types.{VerificationMethod, text, single, Answer, Keys}
use web5_js.Dids.Dht.Txt.{parse_txt_data_to_object}
use web5_js.Dids.Dht.ToPacket.{
  default_algorithm, same_text, pairs_text, key_bytes, key_pairs, key_answer, key_answers,
  key_record_id, record_name, txt_answer,
}
use web5_js.Dids.Dht.FromPacket.{
  Decoded, add_method, process_record, record_id_of, process_answer, process_answers,
}
use web5_js.Dids.Dht.Pairs.{AreClear}
use web5_js.Dids.Dht.Layout.{
  layout, layout-AreClear, layout-property, layout-id, layout-t, layout-k, layout-a, layout-c,
}
use web5_js.Dids.Dht.Methods.{
  IsMethod, method_of-IsMethod, decimal-IsClear, fragment-id, curve_type, curve_converter,
  curve_required,
}

-- The name of a record tells its ID.
pub record_id_of-name : (id : Text) → Lacks b'.' id → record_id_of (record_name id) ≡ id
unfolding record_id_of
record_id_of-name id h = rw (split-cut b'.' (b'_' ∷ id) (codes "_did.") (not_dot, h)) refl
  where
    not_dot : ◌≢◌ {A = ℕ} b'_' b'.'
    not_dot e = cc

pub key_record_id-Lacks : (i : ℕ) → Lacks b'.' (key_record_id i)
key_record_id-Lacks i = (not_dot, decimal-Lacks b'.' i λ (low, high). apart low)
  where
    not_dot : ◌≢◌ {A = ℕ} b'k' b'.'
    not_dot e = cc

    apart : 48 ≤ 46 → ⊥
    apart h = omega arith

module _ (keys : Keys) where
  -- The methods that records can hold, from a number on
  abbrev pub AreMethods : Text → ℕ → List (VerificationMethod keys.Jwk) → Type 0
  AreMethods did i [] = Unit
  AreMethods did i (m ∷ ms) = IsMethod keys did i m × AreMethods did (suc i) ms

  -- The state after their records
  abbrev pub added : ℕ → List (VerificationMethod keys.Jwk) → Decoded keys.Jwk → Decoded keys.Jwk
  added i [] s = s
  added i (m ∷ ms) s = added (suc i) ms (add_method keys (key_record_id i) m s)

  module _ (did : Text) (plain : Lacks b'#' did) (i : ℕ) (method : VerificationMethod keys.Jwk)
      (m : IsMethod keys did i method) where
    abbrev own_layout : List (Text × Text)
    own_layout =
        layout (not (m.id === codes "0") && not (keys.thumbprint m.key === m.id)) m.id (decimal m.n)
          (keys.bytes_to_base64url m.is_key.key_bytes)
          (not (same_text (some m.algorithm) (default_algorithm (some m.n)))) m.algorithm
          (not (method.controller === did)) method.controller

    key_pairs-layout :
        key_pairs keys did method m.key m.c (keys.bytes_to_base64url m.is_key.key_bytes)
        ≡ own_layout
    unfolding key_pairs
    key_pairs-layout =
        rw
          (
            m.is_id,
            fragment-id did m.id plain m.id_plain,
            curve_type m.c m.n m.curve,
            m.has_algorithm,
          )
          refl

    key_answer-layout :
        key_answer keys did i method ≡ ok (txt_answer (key_record_id i) (pairs_text own_layout))
    unfolding key_answer key_bytes key_pairs
    key_answer-layout =
        rw
          (
            m.has_key,
            m.is_key.has_curve,
            curve_required m.c m.n m.curve,
            curve_converter m.c m.n m.curve,
            m.is_key.to_bytes,
          )
          (ap (λ ps. ok (txt_answer (key_record_id i) (pairs_text ps))) key_pairs-layout)

    own_layout-AreClear : AreClear own_layout
    own_layout-AreClear =
        layout-AreClear _ m.id (decimal m.n) _ _ m.algorithm _ method.controller m.id_clear
          (decimal-IsClear m.n) m.is_key.base64url_clear m.algorithm_clear m.controller_clear

    -- The record is read as the method.
    process_key_answer :
        (s : Decoded keys.Jwk)
        → s.document.id ≡ did
        → process_answer keys (txt_answer (key_record_id i) (pairs_text own_layout)) s
          ≡ ok (add_method keys (key_record_id i) method s)
    unfolding process_answer process_record starts_with
    process_key_answer s same =
        let read = λ (j : Text).
          layout-property _ m.id (decimal m.n) _ _ m.algorithm _ method.controller keys.utf8_to_text
            j own_layout-AreClear in
        rw
          (
            record_id_of-name (key_record_id i) (key_record_id-Lacks i),
            same,
            method_of-IsMethod keys did i method m
                (parse_txt_data_to_object keys.utf8_to_text (single (text (pairs_text own_layout))))
                (read (codes "k") ∙ layout-k _ _ _ _ _ _ _ _)
                (read (codes "t") ∙ layout-t _ _ _ _ _ _ _ _)
                (read (codes "a") ∙ layout-a _ _ _ _ _ _ _ _)
                (read (codes "c") ∙ layout-c _ _ _ _ _ _ _ _)
                (read (codes "id") ∙ layout-id _ _ _ _ _ _ _ _),
          )
          refl

  -- The records of the methods are written, and read as the methods, whatever comes after them.
  pub key_answers-read :
      (did : Text) (i : ℕ) (methods : List (VerificationMethod keys.Jwk))
      → Lacks b'#' did
      → AreMethods did i methods
      → (answers : List Answer) × (key_answers keys did i methods ≡ ok answers)
        × ((s : Decoded keys.Jwk) (rest : List Answer)
            → s.document.id ≡ did
            → process_answers keys (answers ++ rest) s
              ≡ process_answers keys rest (added i methods s))
  unfolding key_answers process_answers
  key_answers-read did i [] plain h = ([], refl, λ s rest same. refl)
  key_answers-read did i (method ∷ methods) plain (m, h) =
      let (answers, written_as, read) = key_answers-read did (suc i) methods plain h in
      (
        txt_answer (key_record_id i) (pairs_text (own_layout did plain i method m)) ∷ answers,
        rw (key_answer-layout did plain i method m, written_as) refl,
        λ s rest same.
            rw (process_key_answer did plain i method m s same)
              (read (add_method keys (key_record_id i) method s) rest same),
      )
