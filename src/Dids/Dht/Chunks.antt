-- ===== src/Dids/Dht/Chunks.antt =====
-- The data of a TXT record in chunks (`chunkDataIfNeeded` of packages/dids/src/methods/did-dht.ts).
use web5_js.Base.{
  ℕ, zero, suc, ◌≤◌, Text, List, [], ◌∷◌, ◌++◌, leb, length, take, drop, All, ◌≡◌, refl, ap, ◌∙◌,
  Bool-cases, inl, inr, arith,
}
use web5_js.Dids.Dht.Types.{Chunk, text, bytes, TxtData, single, chunks}
use web5_js.Dids.Dht.Txt.{
  chunks_to_string, parse_txt_data_to_string, chunk_loop, chunk_data_if_needed,
}

take-drop : {A : Type 0} (n : ℕ) (xs : List A) → take n xs ++ drop n xs ≡ xs
take-drop zero xs = refl
take-drop (suc n) [] = refl
take-drop (suc n) (x ∷ xs) = ap (λ l. x ∷ l) (take-drop n xs)

length-drop : {A : Type 0} (n : ℕ) (xs : List A) → length (drop n xs) ≤ length xs
length-drop zero xs = omega arith
length-drop (suc n) [] = omega arith
length-drop (suc n) (x ∷ xs) = omega (arith, length-drop n xs)

length-take : {A : Type 0} (n : ℕ) (xs : List A) → length (take n xs) ≤ n
length-take zero xs = omega arith
length-take (suc n) [] = omega arith
length-take (suc n) (x ∷ xs) = omega (arith, length-take n xs)

-- A text of at most 255 units, which is what a character string of DNS holds
abbrev pub IsShort : Chunk → Type 0
IsShort (text t) = length t ≤ 255
IsShort (bytes b) = length b ≤ 255

abbrev pub AreShort : TxtData → Type 0
AreShort (single c) = IsShort c
AreShort (chunks cs) = All IsShort cs

chunk_loop-IsShort : (fuel : ℕ) (s : Text) → All IsShort (chunk_loop fuel s)
unfolding chunk_loop
chunk_loop-IsShort zero s = tt
chunk_loop-IsShort (suc fuel) [] = tt
chunk_loop-IsShort (suc fuel) (c ∷ s) =
    (length-take 255 (c ∷ s), chunk_loop-IsShort fuel (drop 255 (c ∷ s)))

chunk_loop-whole :
    (utf8 : List ℕ → Text) (fuel : ℕ) (s : Text)
    → length s ≤ fuel
    → chunks_to_string utf8 (chunk_loop fuel s) ≡ s
unfolding chunk_loop
chunk_loop-whole utf8 zero [] h = refl
chunk_loop-whole utf8 zero (c ∷ s) h = absurd (none_left (length s) h)
  where
    none_left : (n : ℕ) → suc n ≤ 0 → ⊥
    none_left n h = omega arith
chunk_loop-whole utf8 (suc fuel) [] h = refl
chunk_loop-whole utf8 (suc fuel) (c ∷ s) h =
    let shorter = length-drop 254 s in
    ap (λ t. take 255 (c ∷ s) ++ t) (chunk_loop-whole utf8 fuel (drop 255 (c ∷ s)) (omega arith))
    ∙ take-drop 255 (c ∷ s)

-- The data hold the whole text, in chunks of at most 255 units.
pub chunk_data_if_needed-whole :
    (utf8 : List ℕ → Text) (s : Text)
    → (parse_txt_data_to_string utf8 (chunk_data_if_needed s) ≡ s)
      × AreShort (chunk_data_if_needed s)
unfolding chunk_data_if_needed parse_txt_data_to_string
chunk_data_if_needed-whole utf8 s = elim (Bool-cases (leb (length s) 255)) [
  | inl e ↦ rw e (refl, ground arith)
  | inr e ↦ rw e (chunk_loop-whole utf8 (length s) s (omega arith), chunk_loop-IsShort (length s) s)
]
