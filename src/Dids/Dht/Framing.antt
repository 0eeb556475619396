-- ===== src/Dids/Dht/Framing.antt =====
-- The bytes of a BEP44 message on the wire (packages/dids/src/methods/did-dht.ts).
use web5_js.Base.{
  ℕ, zero, suc, ◌+◌, ◌*◌, ◌/◌, ◌%◌, ◌^◌, ◌≤◌, ◌<◌, List, [], ◌∷◌, ◌++◌, append_assoc, length,
  length-append, take, drop, take-append, drop-append, ltb, ok, ◌≡◌, refl, sym, ap, subst, ◌∙◌,
  arith, false,
}
use web5_js.Dids.Dht.Message.{
  Network, Bep44Message, set_uint, get_uint, message_body, message_of_body,
}

length-set_uint : (count n : ℕ) → length (set_uint count n) ≡ count
unfolding set_uint
length-set_uint zero n = refl
length-set_uint (suc count) n =
    length-append (set_uint count (n / 256)) ((n % 256) ∷ [])
    ∙ (let shorter = length-set_uint count (n / 256) in omega arith)

get_uint-append :
    (acc : ℕ) (bs : List ℕ) (b : ℕ) → get_uint acc (bs ++ (b ∷ [])) ≡ get_uint acc bs * 256 + b
unfolding get_uint
get_uint-append acc [] b = refl
get_uint-append acc (c ∷ bs) b = get_uint-append (acc * 256 + c) bs b

-- The numbers that fit
abbrev bound : ℕ → ℕ
bound zero = 1
bound (suc count) = 256 * bound count

-- A number that fits is read back.
get_uint-set_uint : (count n : ℕ) → n < bound count → get_uint 0 (set_uint count n) ≡ n
unfolding set_uint get_uint
get_uint-set_uint zero n h = omega arith
get_uint-set_uint (suc count) n h =
    get_uint-append 0 (set_uint count (n / 256)) (n % 256)
    ∙ ap (λ m. m * 256 + n % 256) (get_uint-set_uint count (n / 256) (omega arith))
    ∙ omega arith

take-front : (n : ℕ) (xs ys : List ℕ) → length xs ≡ n → take n (xs ++ ys) ≡ xs
take-front n xs ys h = subst (λ m. take m (xs ++ ys) ≡ xs) h (take-append xs ys)

drop-front : (n : ℕ) (xs ys : List ℕ) → length xs ≡ n → drop n (xs ++ ys) ≡ ys
drop-front n xs ys h = subst (λ m. drop m (xs ++ ys) ≡ ys) h (drop-append xs ys)

module _ (net : Network) (m : Bep44Message) where
  abbrev seq_bytes : List ℕ
  seq_bytes = set_uint 8 m.seq

  length-message_body : length m.sig ≡ 64 → length (message_body m) ≡ 72 + length m.v
  unfolding message_body
  length-message_body h =
      let whole = length-append m.sig (seq_bytes ++ m.v) in
      let rest = length-append seq_bytes m.v in let eight = length-set_uint 8 m.seq in omega arith

  drop-message_body : length m.sig ≡ 64 → drop 72 (message_body m) ≡ m.v
  unfolding message_body
  drop-message_body h =
      ap (drop 72) (sym (append_assoc m.sig seq_bytes m.v))
      ∙ drop-front 72 (m.sig ++ seq_bytes) m.v (
          let whole = length-append m.sig seq_bytes in
          let eight = length-set_uint 8 m.seq in omega arith)

  seq-message_body :
      length m.sig ≡ 64 → m.seq < 2 ^ 64 → get_uint 0 (take 8 (drop 64 (message_body m))) ≡ m.seq
  unfolding message_body
  seq-message_body h fits =
      ap (λ l. get_uint 0 (take 8 l)) (drop-front 64 m.sig (seq_bytes ++ m.v) h)
      ∙ ap (get_uint 0) (take-front 8 seq_bytes m.v (length-set_uint 8 m.seq))
      ∙ get_uint-set_uint 8 m.seq fits

  sig-message_body : length m.sig ≡ 64 → take 64 (message_body m) ≡ m.sig
  unfolding message_body
  sig-message_body h = take-front 64 m.sig (seq_bytes ++ m.v) h

  -- The message is read back from the body that is sent.
  pub message_of_body-message_body :
      length m.sig ≡ 64
      → length m.v ≤ 1000
      → m.seq < 2 ^ 64
      → net.number_of_bigint m.seq ≡ m.seq
      → message_of_body net m.k (message_body m) ≡ ok m
  unfolding message_of_body
  message_of_body-message_body h short fits exact =
      let size = length-message_body h in
      let low : ltb (length (message_body m)) 72 ≡ false = ground arith in
      let high : ltb 1072 (length (message_body m)) ≡ false = ground arith in
      rw (low, high, seq-message_body h fits, exact, sig-message_body h, drop-message_body h) refl
