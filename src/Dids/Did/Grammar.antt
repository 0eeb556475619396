-- ===== src/Dids/Did/Grammar.antt =====
-- `Did.parse` of packages/dids/src/did.ts recognises a grammar of DID URLs.
use web5_js.Base.{
  ℕ, Text, codes, some, [], ◌∷◌, ◌++◌, Bool, true, false, ◌&&◌, ◌==◌, truthy, ◌≡◌, ◌≢◌, refl, ap,
  ◌∙◌, arith, All, Bool-cases, inl, inr, ==_iff,
}
use web5_js.Dids.Did.{
  is_method_char, is_hex, is_id_char, is_fragment_char, is_query_char, is_path_char, span,
  strip_prefix, scan_id, ends_in_char, optional_part, push, Groups,
}

abbrev pub Passes : (ℕ → Bool) → Text → Type 0
Passes p = All (λ c. p c ≡ true)

-- The text is empty or begins with a unit that fails the test.
abbrev pub Stops : (ℕ → Bool) → Text → Type 0
Stops p [] = Unit
Stops p (c ∷ s) = p c ≡ false

-- An optional group: empty, or its leading unit before units that pass the test.
abbrev pub IsPart : ℕ → (ℕ → Bool) → Text → Type 0
IsPart lead p [] = Unit
IsPart lead p (c ∷ s) = (c ≡ lead) × Passes p s

-- Id characters, colons and percent-encoded bytes, one after the other.
pub data Units : Text → Type 0 where
  end : Units []
  char : (c : ℕ) {s : Text} → is_id_char c ≡ true → Units s → Units (c ∷ s)
  percent :
      (h k : ℕ) {s : Text} → is_hex h ≡ true → is_hex k ≡ true → Units s → Units (b'%' ∷ h ∷ k ∷ s)

pub record IsGroups (g : Groups) : Type 0 where
  pub method_chars : Passes is_method_char g.method
  pub method_given : truthy g.method ≡ true
  pub id_units : Units g.id
  pub id_end : ends_in_char g.id ≡ true
  pub path_part : IsPart b'/' is_path_char g.path
  pub query_part : IsPart b'?' is_query_char g.query
  pub fragment_part : IsPart b'#' is_fragment_char g.fragment

-- `did:method:id/path?query#fragment`
abbrev pub render : Groups → Text
render g =
    codes "did:" ++ (g.method ++ (codes ":" ++ (g.id ++ (g.path ++ (g.query ++ g.fragment)))))

module _ (p : ℕ → Bool) where
  pub span-append : (s : Text) → (span p s).0 ++ (span p s).1 ≡ s
  unfolding span
  span-append [] = refl
  span-append (c ∷ s) = elim (Bool-cases (p c)) [
    | inl good ↦ rw good (ap (λ t. c ∷ t) (span-append s))
    | inr bad ↦ rw bad refl
  ]

  pub span-Passes : (s : Text) → Passes p (span p s).0
  unfolding span
  span-Passes [] = tt
  span-Passes (c ∷ s) = elim (Bool-cases (p c)) [
    | inl good ↦ rw good (good, span-Passes s)
    | inr bad ↦ rw bad tt
  ]

  pub span_lem : (a b : Text) → Passes p a → Stops p b → span p (a ++ b) ≡ (a, b)
  unfolding span
  span_lem [] [] _ _ = refl
  span_lem [] (c ∷ b) _ h = rw h refl
  span_lem (c ∷ a) b (good, h) k = rw (span_lem a b h k, good) refl

  pub optional_part-append :
      (lead : ℕ) (s : Text) → (optional_part lead p s).0 ++ (optional_part lead p s).1 ≡ s
  unfolding optional_part
  optional_part-append lead [] = refl
  optional_part-append lead (c ∷ s) = elim (Bool-cases (c == lead)) [
    | inl good ↦ rw good (ap (λ t. c ∷ t) (span-append s))
    | inr bad ↦ rw bad refl
  ]

  pub optional_part-IsPart : (lead : ℕ) (s : Text) → IsPart lead p (optional_part lead p s).0
  unfolding optional_part
  optional_part-IsPart lead [] = tt
  optional_part-IsPart lead (c ∷ s) = elim (Bool-cases (c == lead)) [
    | inl good ↦ rw good ((==_iff c lead).0 good, span-Passes s)
    | inr bad ↦ rw bad tt
  ]

  pub optional_part_lem :
      (lead : ℕ) (a b : Text)
      → IsPart lead p a
      → Stops p b
      → Stops (λ c. c == lead) b
      → optional_part lead p (a ++ b) ≡ (a, b)
  unfolding optional_part
  optional_part_lem lead [] [] _ _ _ = refl
  optional_part_lem lead [] (c ∷ b) _ _ h = rw h refl
  optional_part_lem lead (c ∷ a) b (e, h) k _ = rw ((==_iff c lead).1 e, span_lem a b h k) refl

-- A group that is given begins with its leading unit.
pub part-Stops :
    (q : ℕ → Bool) (lead : ℕ) (p : ℕ → Bool) (a b : Text)
    → IsPart lead p a
    → q lead ≡ false
    → Stops q b
    → Stops q (a ++ b)
part-Stops q lead p [] b _ _ h = h
part-Stops q lead p (c ∷ a) b (e, _) k _ = rw e k

pub strip_prefix_sound : (cs s r : Text) → strip_prefix cs s ≡ some r → s ≡ cs ++ r
unfolding strip_prefix
strip_prefix_sound [] s r h = cc
strip_prefix_sound (c ∷ cs) [] r h = cc
strip_prefix_sound (c ∷ cs) (x ∷ xs) r h =
    let same : c ≡ x = ground arith in
    let rest : xs ≡ cs ++ r = strip_prefix_sound cs xs r (ground arith) in cc

pub strip_prefix_lem : (cs r : Text) → strip_prefix cs (cs ++ r) ≡ some r
unfolding strip_prefix
strip_prefix_lem [] r = refl
strip_prefix_lem (c ∷ cs) r = ground (arith, strip_prefix_lem cs r)

scan_char : (c : ℕ) (s : Text) → is_id_char c ≡ true → scan_id (c ∷ s) ≡ push c (scan_id s)
unfolding scan_id
scan_char c [] h = rw h refl
scan_char c (d ∷ []) h = rw h refl
scan_char c (d ∷ e ∷ s) h = rw h refl

-- The text does not go on as an id.
abbrev pub StopsId : Text → Type 0
StopsId [] = Unit
StopsId (c ∷ s) = (is_id_char c ≡ false) × (c ≢ b'%')

scan_stop : (s : Text) → StopsId s → scan_id s ≡ ([], s)
unfolding scan_id
scan_stop [] _ = refl
scan_stop (c ∷ []) (h, k) = rw h refl
scan_stop (c ∷ d ∷ []) (h, k) = rw h refl
scan_stop (c ∷ d ∷ e ∷ s) (h, k) = ground arith

percent_no_char : is_id_char b'%' ≡ false
unfolding is_id_char
percent_no_char = refl

scan_percent :
    (h k : ℕ) (s : Text)
    → is_hex h ≡ true
    → is_hex k ≡ true
    → scan_id (b'%' ∷ h ∷ k ∷ s) ≡ push b'%' (push h (push k (scan_id s)))
unfolding scan_id
scan_percent h k s p q = rw (percent_no_char, p, q) refl

pub scan_id_lem : {a : Text} (b : Text) → Units a → StopsId b → scan_id (a ++ b) ≡ (a, b)
scan_id_lem b end h = scan_stop b h
scan_id_lem b (char c {s} good u) h = scan_char c (s ++ b) good ∙ ap (push c) (scan_id_lem b u h)
scan_id_lem b (percent p q {s} hp hq u) h =
    scan_percent p q (s ++ b) hp hq ∙ ap (λ r. push b'%' (push p (push q r))) (scan_id_lem b u h)

pub scan_id-append : (s : Text) → (scan_id s).0 ++ (scan_id s).1 ≡ s
unfolding scan_id
scan_id-append [] = refl
scan_id-append (c ∷ []) = ground arith
scan_id-append (c ∷ h ∷ []) = ground (arith, scan_id-append (h ∷ []))
scan_id-append (c ∷ h ∷ k ∷ s) = ground (arith, scan_id-append (h ∷ k ∷ s), scan_id-append s)

pub scan_id-Units : (s : Text) → Units (scan_id s).0
unfolding scan_id
scan_id-Units [] = end
scan_id-Units (c ∷ []) = elim (Bool-cases (is_id_char c)) [
  | inl good ↦ rw good (char c good end)
  | inr bad ↦ rw bad end
]
scan_id-Units (c ∷ h ∷ []) = elim (Bool-cases (is_id_char c)) [
  | inl good ↦ rw good (char c good (scan_id-Units (h ∷ [])))
  | inr bad ↦ rw bad end
]
scan_id-Units (c ∷ h ∷ k ∷ s) = elim (Bool-cases (is_id_char c)) [
  | inl good ↦ rw good (char c good (scan_id-Units (h ∷ k ∷ s)))
  | inr bad ↦ elim (Bool-cases (c == b'%' && (is_hex h && is_hex k))) [
    | inr no_byte ↦ rw (bad, no_byte) end
    | inl byte ↦
        let e : c ≡ b'%' = ground arith in
        rw (bad, byte) (rw e (percent h k (ground arith) (ground arith) (scan_id-Units s)))
  ]
]
