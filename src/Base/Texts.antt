-- ===== src/Base/Texts.antt =====
-- JavaScript strings as lists of UTF-16 code units, with the string methods that the program
-- calls: `===`, `startsWith`, `split` at one unit, `join` by one unit.
use Prim.Native.Nat.{ℕ}
use Prim.Native.Char.{code}
use Prim.Native.String.{String}
use mathlib.Core.Path.{◌≡◌, refl, ap, ◌∙◌}
use mathlib.Core.Logic.{◌≢◌, ◌↔◌}
use mathlib.Core.Bool.{Bool, true, false, ◌&&◌, ◌||◌}
use mathlib.Core.Option.{Option, none, some}
use mathlib.Core.List.{List, [], ◌∷◌, ◌++◌}
use native.Mathlib.Omega.{arith}
use web5_js.Base.Tests.{◌==◌, if◌then◌else◌}
use web5_js.Base.Lists.{All}

abbrev pub Text : Type 0
Text = List ℕ

-- A literal of the source; all of them are ASCII.
abbrev pub codes : String → Text
codes String.[] = []
codes (String.◌∷◌ c s) = code c ∷ codes s

-- `===`
infix 50 ◌===◌
unfoldable pub ◌===◌ : Text → Text → Bool
[] === [] = true
(x ∷ xs) === (y ∷ ys) = (x == y) && (xs === ys)
_ === _ = false

pub ===_sound : (s t : Text) → (s === t) ≡ true → s ≡ t
unfolding ◌===◌
===_sound [] [] h = refl
===_sound [] (y ∷ ys) h = cc
===_sound (x ∷ xs) [] h = cc
===_sound (x ∷ xs) (y ∷ ys) h = ground (arith, ===_sound xs ys)

pub ===_refl : (s : Text) → (s === s) ≡ true
unfolding ◌===◌
===_refl [] = refl
===_refl (x ∷ xs) = ground (arith, ===_refl xs)

pub ===_iff : (s t : Text) → ((s === t) ≡ true) ↔ (s ≡ t)
===_iff s t = (===_sound s t, λ e. rw e (===_refl t))

-- `===` between two strings that may be undefined.
infix 50 ◌===?◌
unfoldable pub ◌===?◌ : Option Text → Option Text → Bool
none ===? none = true
(some s) ===? (some t) = s === t
_ ===? _ = false

pub ===?_iff : (s t : Option Text) → ((s ===? t) ≡ true) ↔ (s ≡ t)
unfolding ◌===?◌
===?_iff none none = (λ _. refl, λ _. refl)
===?_iff none (some t) = (λ h. cc, λ h. cc)
===?_iff (some s) none = (λ h. cc, λ h. cc)
===?_iff (some s) (some t) = (λ h. ap some (===_sound s t h), λ e. ground (arith, ===_iff s t))

-- A string as a condition: the empty string is falsy.
unfoldable pub truthy : Text → Bool
truthy [] = false
truthy (_ ∷ _) = true

-- The same of a string that may be undefined.
unfoldable pub is_given : Option Text → Bool
unfolding truthy
is_given none = false
is_given (some s) = truthy s

-- `Array.prototype.includes` on strings.
unfoldable pub includes : List Text → Text → Bool
includes [] s = false
includes (t ∷ ts) s = (t === s) || includes ts s

-- `s.startsWith(p)`, the pattern first
unfoldable pub starts_with : Text → Text → Bool
starts_with [] s = true
starts_with (p ∷ ps) [] = false
starts_with (p ∷ ps) (x ∷ xs) = (p == x) && starts_with ps xs

starts_with_sound : (p s : Text) → starts_with p s ≡ true → (r : Text) × (s ≡ p ++ r)
unfolding starts_with
starts_with_sound [] s h = (s, refl)
starts_with_sound (p ∷ ps) [] h = cc
starts_with_sound (p ∷ ps) (x ∷ xs) h =
    let same : x ≡ p = ground arith in
    let (r, e) = starts_with_sound ps xs (ground arith) in (r, cc)

starts_with-append : (p r : Text) → starts_with p (p ++ r) ≡ true
unfolding starts_with
starts_with-append [] r = refl
starts_with-append (p ∷ ps) r = ground (arith, starts_with-append ps r)

pub starts_with_iff : (p s : Text) → (starts_with p s ≡ true) ↔ ((r : Text) × (s ≡ p ++ r))
starts_with_iff p s = (starts_with_sound p s, λ (r, e). rw e (starts_with-append p r))

-- No unit of the text is `c`.
abbrev pub Lacks : ℕ → Text → Type 0
Lacks c = All (λ x. x ≢ c)

-- The pieces of `s.split(c)` at the unit `c`: the first one, and those after the first `c`.
unfoldable pub split_go : ℕ → Text → Text × List Text
split_go c [] = ([], [])
split_go c (x ∷ xs) =
    let (piece, rest) = split_go c xs in if x == c then ([], piece ∷ rest) else (x ∷ piece, rest)

unfoldable pub split : ℕ → Text → List Text
unfolding split_go
split c s = let (piece, rest) = split_go c s in piece ∷ rest

-- `pieces.join(c)` by the one-unit separator `c`
unfoldable pub join : ℕ → List Text → Text
join c [] = []
join c (s ∷ []) = s
join c (s ∷ t ∷ ts) = s ++ (c ∷ join c (t ∷ ts))

split_go-Lacks : (c : ℕ) (s : Text) → Lacks c s → split_go c s ≡ (s, [])
unfolding split_go
split_go-Lacks c [] _ = refl
split_go-Lacks c (x ∷ xs) (p, h) = rw (split_go-Lacks c xs h) (ground arith)

split_go-cut :
    (c : ℕ) (s t : Text)
    → Lacks c s
    → split_go c (s ++ (c ∷ t)) ≡ (s, (split_go c t).0 ∷ (split_go c t).1)
unfolding split_go
split_go-cut c [] t _ = ground arith
split_go-cut c (x ∷ xs) t (p, h) = rw (split_go-cut c xs t h) (ground arith)

-- Text up to a first separator is the first piece, and the pieces after it are those of the rest.
pub split-cut : (c : ℕ) (s t : Text) → Lacks c s → split c (s ++ (c ∷ t)) ≡ s ∷ split c t
unfolding split
split-cut c s t h = rw (split_go-cut c s t h) refl

pub split-Lacks : (c : ℕ) (s : Text) → Lacks c s → split c s ≡ s ∷ []
unfolding split
split-Lacks c s h = rw (split_go-Lacks c s h) refl

-- Splitting gives back the pieces that were joined, if none holds the separator.
pub split-join :
    (c : ℕ) (s : Text) (ts : List Text)
    → All (Lacks c) (s ∷ ts)
    → split c (join c (s ∷ ts)) ≡ s ∷ ts
unfolding join
split-join c s [] (h, _) = split-Lacks c s h
split-join c s (t ∷ ts) (h, k) = split-cut c s _ h ∙ ap (λ r. s ∷ r) (split-join c t ts k)

-- A first separator is found at one place.
pub cut-injective :
    (c : ℕ) (s s' t t' : Text)
    → Lacks c s
    → Lacks c s'
    → s ++ (c ∷ t) ≡ s' ++ (c ∷ t')
    → (s ≡ s') × (t ≡ t')
cut-injective c [] [] t t' h k e = (refl, cc)
cut-injective c [] (y ∷ s') t t' h (q, k) e = absurd (q (cc))
cut-injective c (x ∷ s) [] t t' (p, h) k e = absurd (p (cc))
cut-injective c (x ∷ s) (y ∷ s') t t' (p, h) (q, k) e =
    let (same, rest) = cut-injective c s s' t t' h k (cc) in (cc, rest)
