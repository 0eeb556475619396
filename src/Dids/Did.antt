-- ===== src/Dids/Did.antt =====
-- `Did` of packages/dids/src/did.ts: the pattern of DID URLs and `Did.parse`.
pub mod Grammar
pub mod Matched
pub mod Parse
use web5_js.Base.{
  ℕ, Text, codes, Option, none, some, List, [], ◌∷◌, ◌++◌, Bool, true, false, ◌&&◌, ◌||◌, not, ◌==◌,
  leb, if◌then◌else◌, truthy, split, get_elem?, insert, drop,
}

abbrev pub between : ℕ → ℕ → ℕ → Bool
between lo hi c = leb lo c && leb c hi

-- `METHOD_PATTERN`
unfoldable pub is_method_char : ℕ → Bool
is_method_char c = between b'a' b'z' c || between b'0' b'9' c

-- `[0-9a-fA-F]` of `PCT_ENCODED_PATTERN`
unfoldable pub is_hex : ℕ → Bool
is_hex c = between b'0' b'9' c || (between b'a' b'f' c || between b'A' b'F' c)

-- `[a-zA-Z0-9._-]` of `ID_CHAR_PATTERN`, and the `:` between the parts of an id
unfoldable pub is_id_char : ℕ → Bool
is_id_char c =
    between b'a' b'z' c
    || (between b'A' b'Z' c
        || (between b'0' b'9' c || (c == b'.' || (c == b'_' || (c == b'-' || c == b':')))))

-- `.` matches no line terminator.
unfoldable pub is_fragment_char : ℕ → Bool
is_fragment_char c = not (c == 10 || (c == 13 || (c == 0x2028 || c == 0x2029)))

unfoldable pub is_query_char : ℕ → Bool
is_query_char c = not (c == b'#')

unfoldable pub is_path_char : ℕ → Bool
is_path_char c = not (c == b'#' || c == b'?')

-- The longest front of units that pass a test, and the rest.
unfoldable pub span : (ℕ → Bool) → Text → Text × Text
span p [] = ([], [])
span p (c ∷ s) = let (front, rest) = span p s in if p c then (c ∷ front, rest) else ([], c ∷ s)

unfoldable pub strip_prefix : Text → Text → Option Text
strip_prefix [] s = some s
strip_prefix (c ∷ cs) [] = none
strip_prefix (c ∷ cs) (x ∷ xs) = let rest = strip_prefix cs xs in if c == x then rest else none

abbrev pub push : ℕ → Text × Text → Text × Text
push c (front, rest) = (c ∷ front, rest)

-- The longest front of id characters, colons and percent-encoded bytes.
unfoldable pub scan_id : Text → Text × Text
scan_id [] = ([], [])
scan_id (c ∷ []) = if is_id_char c then (c ∷ [], []) else ([], c ∷ [])
scan_id (c ∷ h ∷ []) =
    let rest = scan_id (h ∷ []) in if is_id_char c then push c rest else ([], c ∷ h ∷ [])
scan_id (c ∷ h ∷ k ∷ s) =
    let rest = scan_id (h ∷ k ∷ s) in
    let after = scan_id s in
    if is_id_char c
    then push c rest
    else if c == b'%' && (is_hex h && is_hex k)
    then push c (push h (push k after))
    else ([], c ∷ h ∷ k ∷ s)

-- `METHOD_ID_PATTERN` ends in an id character that is no colon.
unfoldable pub ends_in_char : Text → Bool
ends_in_char [] = false
ends_in_char (c ∷ []) = not (c == b':')
ends_in_char (c ∷ d ∷ s) = ends_in_char (d ∷ s)

-- A group such as `([?][^#]*)?`: empty, or the leading unit and the units that pass the test.
unfoldable pub optional_part : ℕ → (ℕ → Bool) → Text → Text × Text
unfolding span
optional_part lead p [] = ([], [])
optional_part lead p (c ∷ s) = if c == lead then push c (span p s) else ([], c ∷ s)

pub record Groups : Type 0 where
  pub method : Text
  pub id : Text
  pub path : Text
  pub query : Text
  pub fragment : Text

infixl 5 ◌>>=◌ ◌>>◌
abbrev pub ◌>>=◌ : {A B : Type 0} → Option A → (A → Option B) → Option B
none >>= f = none
some a >>= f = f a

abbrev pub ◌>>◌ : {B : Type 0} → Option (Unit {0}) → Option B → Option B
m >> k = m >>= λ _. k

abbrev pub check : Bool → Option (Unit {0})
check true = some tt
check false = none

-- What follows the id. The three groups are taken in turn and must reach the end.
unfoldable pub match_tail : Text → Option (Text × Text × Text)
match_tail s =
    let (path, s₁) = optional_part b'/' is_path_char s in
    let (query, s₂) = optional_part b'?' is_query_char s₁ in
    let (fragment, s₃) = optional_part b'#' is_fragment_char s₂ in
    check (not (truthy s₃)) >> some (path, query, fragment)

-- `DID_URI_PATTERN.exec`. The pattern is matched from left to right with no backtracking: no
-- character that may follow a group belongs to the group.
unfoldable pub exec : Text → Option Groups
exec s = do
  s₁ ← strip_prefix (codes "did:") s
  check (truthy (span is_method_char s₁).0)
  s₃ ← strip_prefix (codes ":") (span is_method_char s₁).1
  check (ends_in_char (scan_id s₃).0)
  (path, query, fragment) ← match_tail (scan_id s₃).1
  some (record {
    method = (span is_method_char s₁).0;
    id = (scan_id s₃).0;
    path = path;
    query = query;
    fragment = fragment;
  })

-- An object with string values that may be undefined.
abbrev pub Params : Type 0
Params = List (Text × Option Text)

pub record Did : Type 0 where
  pub uri : Text
  pub method : Text
  pub id : Text
  pub path : Option Text
  pub query : Option Text
  pub fragment : Option Text
  pub params : Option Params

-- `const [key, value] = pair.split('=')`
unfoldable pub add_pair : Text → Params → Params
add_pair pair params = elim (split b'=' pair) [
  | [] ↦ params
  | key ∷ more ↦ insert key (get_elem? more 0) params
]

-- The pairs in turn, a later one over an earlier one with its key.
unfoldable pub parse_params : List Text → Params → Params
parse_params [] params = params
parse_params (pair ∷ pairs) params = parse_params pairs (add_pair pair params)

abbrev pub did_uri : Text → Text → Text
did_uri method id = codes "did:" ++ (method ++ (codes ":" ++ id))

-- The fields of a group that is given, without its leading unit
abbrev pub given : Text → Option Text
given [] = none
given (c ∷ s) = some s

unfoldable pub did_of : Groups → Did
did_of g = record {
  uri = did_uri g.method g.id;
  method = g.method;
  id = g.id;
  path = if truthy g.path then some g.path else none;
  query = given g.query;
  fragment = given g.fragment;
  params = if truthy g.query then some (parse_params (split b'&' (drop 1 g.query)) []) else none;
}

abbrev did_of_match : Option Groups → Option Did
did_of_match none = none
did_of_match (some g) = some (did_of g)

-- The empty string is `null`, as is a string that does not match.
unfoldable pub parse : Text → Option Did
parse s = if truthy s then did_of_match (exec s) else none
