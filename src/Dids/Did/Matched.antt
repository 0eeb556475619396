-- ===== src/Dids/Did/Matched.antt =====
-- The groups that the pattern of `Did.parse` finds make up the text (packages/dids/src/did.ts).
use web5_js.Base.{
  ℕ, Text, codes, Option, none, some, [], ◌∷◌, ◌++◌, Bool, true, false, ◌==◌, truthy, Option-cases,
  ◌≡◌, ◌↔◌, refl, sym, ap, subst, ◌∙◌, arith, inl, inr, append-nil,
}
use web5_js.Dids.Did.{
  is_method_char, is_id_char, is_fragment_char, is_query_char, is_path_char, span, strip_prefix,
  scan_id, ends_in_char, optional_part, Groups, match_tail, exec, Did, parse, did_of, check, ◌>>=◌,
}
use web5_js.Dids.Did.Grammar.{
  Stops, StopsId, IsPart, IsGroups, render, span-append, span-Passes, span_lem,
  optional_part-append, optional_part-IsPart, optional_part_lem, part-Stops, strip_prefix_sound,
  strip_prefix_lem, scan_id_lem, scan_id-append, scan_id-Units,
}

no_rest : (s : Text) → truthy s ≡ false → s ≡ []
unfolding truthy
no_rest [] h = refl
no_rest (c ∷ s) h = cc

-- The three groups as `match_tail` takes them.
abbrev path_of : Text → Text × Text
path_of s = optional_part b'/' is_path_char s

abbrev query_of : Text → Text × Text
query_of s = optional_part b'?' is_query_char (path_of s).1

abbrev fragment_of : Text → Text × Text
fragment_of s = optional_part b'#' is_fragment_char (query_of s).1

match_tail_sound :
    (s p q f : Text)
    → match_tail s ≡ some (p, q, f)
    → (s ≡ p ++ (q ++ f))
      × IsPart b'/' is_path_char p
      × IsPart b'?' is_query_char q
      × IsPart b'#' is_fragment_char f
unfolding match_tail
match_tail_sound s p q f h =
    let over : (fragment_of s).1 ≡ [] = no_rest _ (ground arith) in
    let ep : (path_of s).0 ≡ p = ground arith in
    let eq : (query_of s).0 ≡ q = ground arith in
    let ef : (fragment_of s).0 ≡ f = ground arith in
    let whole : s ≡ (path_of s).0 ++ ((query_of s).0 ++ (fragment_of s).0) =
      sym (optional_part-append is_path_char b'/' s)
      ∙ ap (λ t. (path_of s).0 ++ t)
          (sym (optional_part-append is_query_char b'?' (path_of s).1)
            ∙ ap (λ t. (query_of s).0 ++ t)
                (sym (optional_part-append is_fragment_char b'#' (query_of s).1)
                  ∙ ap (λ t. (fragment_of s).0 ++ t) over
                  ∙ append-nil _)) in
    (
      whole
          ∙ ap (λ t. t ++ ((query_of s).0 ++ (fragment_of s).0)) ep
          ∙ ap (λ t. p ++ (t ++ (fragment_of s).0)) eq
          ∙ ap (λ t. p ++ (q ++ t)) ef,
      subst (IsPart b'/' is_path_char) ep (optional_part-IsPart is_path_char b'/' s),
      subst (IsPart b'?' is_query_char) eq (optional_part-IsPart is_query_char b'?' _),
      subst (IsPart b'#' is_fragment_char) ef (optional_part-IsPart is_fragment_char b'#' _),
    )

match_tail_lem :
    (p q f : Text)
    → IsPart b'/' is_path_char p
    → IsPart b'?' is_query_char q
    → IsPart b'#' is_fragment_char f
    → match_tail (p ++ (q ++ f)) ≡ some (p, q, f)
unfolding match_tail is_path_char is_query_char is_fragment_char truthy
match_tail_lem p q f hp hq hf =
    let to_end : (t : ℕ → Bool) → t b'#' ≡ false → Stops t f =
      λ t h. subst (Stops t) (append-nil f) (part-Stops t b'#' is_fragment_char f [] hf h tt) in
    let after_path : (t : ℕ → Bool) → t b'?' ≡ false → t b'#' ≡ false → Stops t (q ++ f) =
      λ t h k. part-Stops t b'?' is_query_char q f hq h (to_end t k) in
    let e₁ =
      optional_part_lem is_path_char b'/' p (q ++ f) hp (after_path is_path_char refl refl)
        (after_path (λ c. c == b'/') refl refl) in
    let e₂ =
      optional_part_lem is_query_char b'?' q f hq (to_end is_query_char refl)
        (to_end (λ c. c == b'?') refl) in
    let e₃ =
      ap (optional_part b'#' is_fragment_char) (sym (append-nil f))
      ∙ optional_part_lem is_fragment_char b'#' f [] hf tt tt in
    rw (e₁, e₂, e₃) refl

>>=-eq-some :
    {A B : Type 0} (m : Option A) (f : A → Option B) {b : B}
    → (m >>= f) ≡ some b
    → (a : A) × (m ≡ some a) × (f a ≡ some b)
>>=-eq-some none f h = cc
>>=-eq-some (some a) f h = (a, refl, h)

check_passed : (b : Bool) {u : Unit {0}} → check b ≡ some u → b ≡ true
check_passed true h = refl
check_passed false h = cc

some_eq : {x y : Groups} → some x ≡ some y → x ≡ y
some_eq h = cc

-- The parts that `exec` has found make up the text.
exec_sound : (s : Text) (g : Groups) → exec s ≡ some g → (s ≡ render g) × IsGroups g
unfolding exec
exec_sound s g h =
    let (s₁, e₁, h₁) = >>=-eq-some (strip_prefix (codes "did:") s) _ h in
    let (_, c₁, h₂) = >>=-eq-some (check (truthy (span is_method_char s₁).0)) _ h₁ in
    let (s₃, e₃, h₃) = >>=-eq-some (strip_prefix (codes ":") (span is_method_char s₁).1) _ h₂ in
    let (_, c₃, h₄) = >>=-eq-some (check (ends_in_char (scan_id s₃).0)) _ h₃ in
    let ((p, q, f), e₅, h₅) = >>=-eq-some (match_tail (scan_id s₃).1) _ h₄ in
    let found : Groups = record {
      method = (span is_method_char s₁).0;
      id = (scan_id s₃).0;
      path = p;
      query = q;
      fragment = f;
    } in
    let (tail_eq, hp, hq, hf) = match_tail_sound (scan_id s₃).1 p q f e₅ in
    let same : found ≡ g = some_eq h₅ in
    let whole : s ≡ render found =
      strip_prefix_sound (codes "did:") s s₁ e₁
      ∙ ap (λ t. codes "did:" ++ t)
          (sym (span-append is_method_char s₁)
            ∙ ap (λ t. (span is_method_char s₁).0 ++ t)
                (strip_prefix_sound (codes ":") _ s₃ e₃
                  ∙ ap (λ t. codes ":" ++ t)
                      (sym (scan_id-append s₃) ∙ ap (λ t. (scan_id s₃).0 ++ t) tail_eq))) in
    let valid : IsGroups found = record {
      method_chars = span-Passes is_method_char s₁;
      method_given = check_passed _ c₁;
      id_units = scan_id-Units s₃;
      id_end = check_passed _ c₃;
      path_part = hp;
      query_part = hq;
      fragment_part = hf;
    } in
    (whole ∙ ap render same, subst IsGroups same valid)

after_id-StopsId : (g : Groups) → IsGroups g → StopsId (g.path ++ (g.query ++ g.fragment))
unfolding is_id_char
after_id-StopsId g v = go g.path g.query g.fragment v.path_part v.query_part v.fragment_part
  where
    go :
        (p q f : Text)
        → IsPart b'/' is_path_char p
        → IsPart b'?' is_query_char q
        → IsPart b'#' is_fragment_char f
        → StopsId (p ++ (q ++ f))
    go [] [] [] _ _ _ = tt
    go [] [] (c ∷ f) _ _ (e, _) = rw e (refl, ground arith)
    go [] (c ∷ q) f _ (e, _) _ = rw e (refl, ground arith)
    go (c ∷ p) q f (e, _) _ _ = rw e (refl, ground arith)

exec-render : (g : Groups) → IsGroups g → exec (render g) ≡ some g
unfolding exec
exec-render g v =
    let after_id = g.path ++ (g.query ++ g.fragment) in
    let e₁ = strip_prefix_lem (codes "did:") (g.method ++ (codes ":" ++ (g.id ++ after_id))) in
    let e₂ =
      span_lem is_method_char g.method (codes ":" ++ (g.id ++ after_id)) v.method_chars
        (unfold is_method_char in refl) in
    let e₃ = strip_prefix_lem (codes ":") (g.id ++ after_id) in
    let e₄ = scan_id_lem after_id v.id_units (after_id-StopsId g v) in
    let e₅ = match_tail_lem g.path g.query g.fragment v.path_part v.query_part v.fragment_part in
    rw (e₁, e₂, v.method_given, e₃, e₄, v.id_end, e₅) refl

pub parse-render : (g : Groups) → IsGroups g → parse (render g) ≡ some (did_of g)
unfolding parse truthy
parse-render g v = rw (exec-render g v) refl

parse_missed : (s : Text) → exec s ≡ none → parse s ≡ none
unfolding parse
parse_missed s h = rw h (ground arith)

none-some : {d : Did} → none ≡ some d → ⊥
none-some h = cc

did_eq : {x y : Did} → some x ≡ some y → x ≡ y
did_eq h = cc

-- The DIDs that `parse` returns are those of the groups that make up the text.
pub parse_groups_iff :
    (s : Text) (d : Did)
    → (parse s ≡ some d) ↔ ((g : Groups) × IsGroups g × (s ≡ render g) × (d ≡ did_of g))
parse_groups_iff s d = (to, λ (g, v, e, f). rw (e, f) (parse-render g v))
  where
    to : parse s ≡ some d → (g : Groups) × IsGroups g × (s ≡ render g) × (d ≡ did_of g)
    to h = elim (Option-cases (exec s)) [
      | inl missed ↦ absurd (none-some (sym (parse_missed s missed) ∙ h))
      | inr (g, found) ↦
          let (e, v) = exec_sound s g found in
          (g, v, e, did_eq (sym h ∙ ap parse e ∙ parse-render g v))
    ]
