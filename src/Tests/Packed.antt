-- ===== src/Tests/Packed.antt =====
-- Texts written one after the other, each with its length in front, for the tests.
use web5_js.Base.{
  Text, Option, none, [], ◌∷◌, ◌++◌, length, take, drop, take-append, drop-append, ◌≡◌, ap, ◌∙◌,
}

abbrev pub pack : Text → Text → Text
pack t rest = length t ∷ (t ++ rest)

abbrev pub unpack_with : {A : Type 0} → (Text → Text → Option A) → Text → Option A
unpack_with f [] = none
unpack_with f (n ∷ rest) = f (take n rest) (drop n rest)

pub unpack-pack :
    {A : Type 0} (f : Text → Text → Option A) (t rest : Text)
    → unpack_with f (pack t rest) ≡ f t rest
unpack-pack f t rest =
    ap (λ a. f a (drop (length t) (t ++ rest))) (take-append t rest) ∙ ap (f t) (drop-append t rest)
