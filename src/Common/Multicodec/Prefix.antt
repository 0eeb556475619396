-- ===== src/Common/Multicodec/Prefix.antt =====
-- A prefix that `Multicodec.addPrefix` of packages/common/src/multicodec.ts writes is taken off by
-- `removePrefix`.
use web5_js.Base.{
  ℕ, Text, Option, none, some, List, [], ◌∷◌, ◌++◌, ◌==◌, ==_iff, if◌then◌else◌, ◌===◌, length,
  drop, drop-append, lookup, lookup-insert, ok, guard, >>=-eq-ok, ◌≡◌, refl, sym, ap, ◌∙◌, arith,
  Bool-cases, Option-cases, inl, inr,
}
use web5_js.Common.Multicodec.{
  Varint, lookup_code, insert_code, Registry, register_codec, code_of_name, resolve_code, with_code,
  add_prefix, named, split_prefix, remove_prefix,
}

-- Every code that a name stands for has a name.
pub record IsConsistent (r : Registry) : Type 0 where
  pub named_code :
      (name : Text) (c : ℕ)
      → lookup name r.name_to_code ≡ some c
      → (n : Text) × (lookup_code c r.code_to_name ≡ some n)

lookup_code-insert_code :
    (c k : ℕ) (name : Text) (m : List (ℕ × Text))
    → lookup_code k (insert_code c name m) ≡ (if c == k then some name else lookup_code k m)
unfolding lookup_code insert_code
lookup_code-insert_code c k name [] = refl
lookup_code-insert_code c k name ((j, old) ∷ m) = ground (arith, lookup_code-insert_code c k name m)

code_eq : {x y : ℕ} → some x ≡ some y → x ≡ y
code_eq h = cc

kept_name :
    (c k : ℕ) (name n : Text) (m : List (ℕ × Text))
    → lookup_code k m ≡ some n
    → (n' : Text) × (lookup_code k (insert_code c name m) ≡ some n')
kept_name c k name n m h = elim (Bool-cases (c == k)) [
  | inl same ↦ (
    name,
    lookup_code-insert_code c k name m ∙ ap (λ b. if b then some name else lookup_code k m) same,
  )
  | inr other ↦ (
    n,
    lookup_code-insert_code c k name m
        ∙ ap (λ b. if b then some name else lookup_code k m) other
        ∙ h,
  )
]

-- Registering a codec keeps the registry one where every code that a name stands for has a name, also if
-- the code or the name was registered before.
pub register_codec-IsConsistent :
    (c : ℕ) (name : Text) (r : Registry) → IsConsistent r → IsConsistent (register_codec c name r)
unfolding register_codec
register_codec-IsConsistent c name r k = record {
  named_code = λ other d h.
      let found = sym (lookup-insert name other c r.name_to_code) ∙ h in
      elim (Bool-cases (name === other)) [
        | inl same ↦
            let one : c ≡ d = code_eq (rw same at found) in
            (
              name,
              lookup_code-insert_code c d name r.code_to_name
                  ∙ ap (λ b. if b then some name else lookup_code d r.code_to_name)
                      ((==_iff c d).1 one),
            )
        | inr different ↦
            let (n, e) = k.named_code other d (rw different at found) in
            kept_name c d name n r.code_to_name e
      ];
}

resolve_code-named :
    (r : Registry) (code : Option ℕ) (name : Option Text) (c : ℕ)
    → IsConsistent r
    → resolve_code r code name ≡ some c
    → (n : Text) × (lookup_code c r.code_to_name ≡ some n)
unfolding resolve_code
resolve_code-named r none none c k h = cc
resolve_code-named r none (some name) c k h = k.named_code name c h
resolve_code-named r (some d) name c k h = elim (Option-cases (lookup_code d r.code_to_name)) [
  | inr (n, found) ↦
      let one : d ≡ c = code_eq (rw found at h) in
      (n, ap (λ x. lookup_code x r.code_to_name) (sym one) ∙ found)
  | inl missing ↦ by_name name (rw missing at h)
]
  where
    by_name :
        (m : Option Text)
        → code_of_name r m ≡ some c
        → (n : Text) × (lookup_code c r.code_to_name ≡ some n)
    by_name none e = cc
    by_name (some m) e = k.named_code m c e

remove_prefix-encode :
    (varint : Varint) (r : Registry) (c : ℕ) (n : Text) (bytes : List ℕ)
    → lookup_code c r.code_to_name ≡ some n
    → remove_prefix varint r (varint.encode c ++ bytes) ≡ ok (c, n, bytes)
unfolding remove_prefix
remove_prefix-encode varint r c n bytes h =
    ap (split_prefix r (varint.encode c ++ bytes)) (varint.decode-encode c bytes)
    ∙ ap (λ o. named c (drop (length (varint.encode c)) (varint.encode c ++ bytes)) o) h
    ∙ ap (λ bs. ok (c, n, bs)) (drop-append (varint.encode c) bytes)

with_code-ok :
    (varint : Varint) (bytes out : List ℕ) (o : Option ℕ)
    → with_code varint bytes o ≡ ok out
    → (c : ℕ) × (o ≡ some c) × (varint.encode c ++ bytes ≡ out)
with_code-ok varint bytes out none h = cc
with_code-ok varint bytes out (some c) h = (c, refl, cc)

-- Data that `addPrefix` put a prefix before is given back by `removePrefix`, with the code that the
-- prefix was made of and a name that the code has, if every code that a name stands for has one.
pub remove_prefix-add_prefix :
    (varint : Varint) (r : Registry) (code : Option ℕ) (name : Option Text) (bytes out : List ℕ)
    → IsConsistent r
    → add_prefix varint r code name bytes ≡ ok out
    → (c : ℕ) × (n : Text) × (resolve_code r code name ≡ some c)
      × (lookup_code c r.code_to_name ≡ some n)
      × (remove_prefix varint r out ≡ ok (c, n, bytes))
unfolding add_prefix
remove_prefix-add_prefix varint r code name bytes out k h =
    let (_, _, written) =
      >>=-eq-ok (guard _ _) (λ _. with_code varint bytes (resolve_code r code name)) h in
    let (c, chosen, shape) = with_code-ok varint bytes out (resolve_code r code name) written in
    let (n, has_name) = resolve_code-named r code name c k chosen in
    (
      c,
      n,
      chosen,
      has_name,
      ap (remove_prefix varint r) (sym shape) ∙ remove_prefix-encode varint r c n bytes has_name,
    )
