-- ===== src/Dids/Did/Parse.antt =====
-- `Did.parse` of packages/dids/src/did.ts against the grammar.
use web5_js.Base.{
  ℕ, Text, codes, Option, none, some, [], ◌∷◌, ◌++◌, Bool, true, truthy, ◌≡◌, ◌↔◌, refl, sym, ap,
  subst, ◌∙◌, append-nil, split, drop, if◌then◌else◌,
}
use web5_js.Dids.Did.{
  is_method_char, is_fragment_char, is_query_char, is_path_char, ends_in_char, Groups, Did, Params,
  parse_params, given, parse, did_of,
}
use web5_js.Dids.Did.Grammar.{Passes, Units, IsPart, IsGroups, render}
use web5_js.Dids.Did.Matched.{parse_groups_iff, parse-render}

-- The DID alone, with no path, query and fragment.
abbrev bare : Groups → Groups
bare g = record g { path = []; query = []; fragment = [] }

abbrev bare_did : Did → Did
bare_did d = record d { path = none; query = none; fragment = none; params = none }

bare-IsGroups : (g : Groups) → IsGroups g → IsGroups (bare g)
bare-IsGroups g v = record {
  method_chars = v.method_chars;
  method_given = v.method_given;
  id_units = v.id_units;
  id_end = v.id_end;
  path_part = tt;
  query_part = tt;
  fragment_part = tt;
}

parse-did_uri : (g : Groups) → IsGroups g → parse (did_of g).uri ≡ some (bare_did (did_of g))
unfolding did_of truthy
parse-did_uri g v =
    ap (λ t. parse (codes "did:" ++ (g.method ++ (codes ":" ++ t)))) (sym (append-nil g.id))
    ∙ parse-render (bare g) (bare-IsGroups g v)

-- The `uri` of a parsed DID URL is itself parsed, as the same method and id with nothing after them.
pub parse-uri : (s : Text) (d : Did) → parse s ≡ some d → parse d.uri ≡ some (bare_did d)
parse-uri s d h =
    let (g, v, _, f) = (parse_groups_iff s d).0 h in
    subst (λ x. parse x.uri ≡ some (bare_did x)) (sym f) (parse-did_uri g v)

-- A path as it is written
abbrev pub path_text : Option Text → Text
path_text none = []
path_text (some s) = s

-- A query or a fragment as it is written, after its sign
abbrev pub part_text : ℕ → Option Text → Text
part_text lead none = []
part_text lead (some s) = lead ∷ s

abbrev pub url : Did → Text
url d =
    codes "did:"
    ++ (d.method
        ++ (codes ":"
            ++ (d.id
                ++ (path_text d.path ++ (part_text b'?' d.query ++ part_text b'#' d.fragment)))))

abbrev pub IsPath : Option Text → Type 0
IsPath none = Unit
IsPath (some []) = ⊥
IsPath (some (c ∷ s)) = (c ≡ b'/') × Passes is_path_char s

abbrev pub HasChars : (ℕ → Bool) → Option Text → Type 0
HasChars p none = Unit
HasChars p (some s) = Passes p s

-- The parameters of a query, which are the pairs between its `&`
abbrev pub query_params : Option Text → Option Params
query_params none = none
query_params (some q) = some (parse_params (split b'&' q) [])

pub record IsDid (d : Did) : Type 0 where
  pub uri_alone : d.uri ≡ codes "did:" ++ (d.method ++ (codes ":" ++ d.id))
  pub method_chars : Passes is_method_char d.method
  pub method_given : truthy d.method ≡ true
  pub id_units : Units d.id
  pub id_end : ends_in_char d.id ≡ true
  pub path_valid : IsPath d.path
  pub query_chars : HasChars is_query_char d.query
  pub fragment_chars : HasChars is_fragment_char d.fragment
  pub params_read : d.params ≡ query_params d.query

abbrev given_path : Text → Option Text
given_path p = if truthy p then some p else none

abbrev given_params : Text → Option Params
given_params q = if truthy q then some (parse_params (split b'&' (drop 1 q)) []) else none

path_text-given_path : (p : Text) → path_text (given_path p) ≡ p
unfolding truthy
path_text-given_path [] = refl
path_text-given_path (c ∷ p) = refl

part_text-given :
    (lead : ℕ) (p : ℕ → Bool) (s : Text) → IsPart lead p s → part_text lead (given s) ≡ s
part_text-given lead p [] h = refl
part_text-given lead p (c ∷ s) (e, _) = ap (λ t. t ∷ s) (sym e)

given_path-IsPath : (p : Text) → IsPart b'/' is_path_char p → IsPath (given_path p)
unfolding truthy
given_path-IsPath [] h = tt
given_path-IsPath (c ∷ p) h = h

given-HasChars : (lead : ℕ) (p : ℕ → Bool) (s : Text) → IsPart lead p s → HasChars p (given s)
given-HasChars lead p [] h = tt
given-HasChars lead p (c ∷ s) (_, h) = h

given_params-given : (q : Text) → given_params q ≡ query_params (given q)
unfolding truthy
given_params-given [] = refl
given_params-given (c ∷ q) = refl

given_path-path_text : (p : Option Text) → IsPath p → given_path (path_text p) ≡ p
unfolding truthy
given_path-path_text none h = refl
given_path-path_text (some []) h = absurd h
given_path-path_text (some (c ∷ s)) h = refl

given-part_text : (lead : ℕ) (p : Option Text) → given (part_text lead p) ≡ p
given-part_text lead none = refl
given-part_text lead (some s) = refl

path_text-IsPart : (p : Option Text) → IsPath p → IsPart b'/' is_path_char (path_text p)
path_text-IsPart none h = tt
path_text-IsPart (some []) h = absurd h
path_text-IsPart (some (c ∷ s)) h = h

part_text-IsPart :
    (lead : ℕ) (p : ℕ → Bool) (s : Option Text) → HasChars p s → IsPart lead p (part_text lead s)
part_text-IsPart lead p none h = tt
part_text-IsPart lead p (some s) h = (refl, h)

did_of-IsDid : (g : Groups) → IsGroups g → IsDid (did_of g)
unfolding did_of
did_of-IsDid g v = record {
  uri_alone = refl;
  method_chars = v.method_chars;
  method_given = v.method_given;
  id_units = v.id_units;
  id_end = v.id_end;
  path_valid = given_path-IsPath g.path v.path_part;
  query_chars = given-HasChars b'?' is_query_char g.query v.query_part;
  fragment_chars = given-HasChars b'#' is_fragment_char g.fragment v.fragment_part;
  params_read = given_params-given g.query;
}

url-did_of : (g : Groups) → IsGroups g → url (did_of g) ≡ render g
unfolding did_of
url-did_of g v =
    rw
      (
        path_text-given_path g.path,
        part_text-given b'?' is_query_char g.query v.query_part,
        part_text-given b'#' is_fragment_char g.fragment v.fragment_part,
      )
      refl

abbrev groups_of : Did → Groups
groups_of d = record {
  method = d.method;
  id = d.id;
  path = path_text d.path;
  query = part_text b'?' d.query;
  fragment = part_text b'#' d.fragment;
}

groups_of-IsGroups : (d : Did) → IsDid d → IsGroups (groups_of d)
groups_of-IsGroups d v = record {
  method_chars = v.method_chars;
  method_given = v.method_given;
  id_units = v.id_units;
  id_end = v.id_end;
  path_part = path_text-IsPart d.path v.path_valid;
  query_part = part_text-IsPart b'?' is_query_char d.query v.query_chars;
  fragment_part = part_text-IsPart b'#' is_fragment_char d.fragment v.fragment_chars;
}

did_of-groups_of : (d : Did) → IsDid d → did_of (groups_of d) ≡ d
unfolding did_of
did_of-groups_of d v =
    rw
      (
        given_path-path_text d.path v.path_valid,
        given_params-given (part_text b'?' d.query),
        given-part_text b'?' d.query,
        given-part_text b'#' d.fragment,
        sym v.uri_alone,
        sym v.params_read,
      )
      refl

-- `Did.parse` returns a DID exactly if the text is `did:method:id` with the path, `?` and the query,
-- and `#` and the fragment after it, those that the DID has: the method is of lower case letters and
-- digits, the id of id characters, colons and percent-encoded bytes with no colon at its end, a path
-- begins with `/` and has no `?` and `#`, a query no `#` and a fragment no line terminator. The `uri`
-- of the DID is `did:method:id`, and its parameters are those that `parse_params` reads in the parts
-- of the query between the `&`.
pub parse_iff : (s : Text) (d : Did) → (parse s ≡ some d) ↔ (IsDid d × (s ≡ url d))
parse_iff s d = (to, from)
  where
    to : parse s ≡ some d → IsDid d × (s ≡ url d)
    to h =
        let (g, v, e, f) = (parse_groups_iff s d).0 h in
        (subst IsDid (sym f) (did_of-IsDid g v), e ∙ sym (url-did_of g v) ∙ ap url (sym f))

    from : IsDid d × (s ≡ url d) → parse s ≡ some d
    from (v, e) =
        (parse_groups_iff s d).1
          (groups_of d, groups_of-IsGroups d v, e, sym (did_of-groups_of d v))
