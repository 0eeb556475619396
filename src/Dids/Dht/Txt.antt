-- ===== src/Dids/Dht/Txt.antt =====
-- The data of TXT records (`DidDhtUtils` of packages/dids/src/methods/did-dht.ts).
use web5_js.Base.{
  ℕ, zero, suc, Text, Option, none, some, List, [], ◌∷◌, ◌++◌, if◌then◌else◌, leb, length, take,
  drop, get_elem?, lookup, insert, split,
}
use web5_js.Dids.Dht.Types.{Chunk, text, bytes, TxtData, single, chunks}

-- An object whose values are strings or `undefined`
abbrev pub Object : Type 0
Object = List (Text × Option Text)

-- `const [key, value] = pair.split('=')`
abbrev pub key_value : List Text → Text × Option Text
key_value [] = ([], none)
key_value (key ∷ more) = (key, get_elem? more 0)

unfoldable pub add_property : Text → Object → Object
add_property pair acc = let (key, value) = key_value (split b'=' pair) in insert key value acc

unfoldable pub object_of : List Text → Object → Object
object_of [] acc = acc
object_of (pair ∷ pairs) acc = object_of pairs (add_property pair acc)

abbrev pub flat : Option (Option Text) → Option Text
flat none = none
flat (some v) = v

unfoldable pub property : Text → Object → Option Text
property key o = flat (lookup key o)

module _ (utf8_to_text : List ℕ → Text) where
  abbrev pub chunk_to_string : Chunk → Text
  chunk_to_string (text t) = t
  chunk_to_string (bytes b) = utf8_to_text b

  abbrev pub chunks_to_string : List Chunk → Text
  chunks_to_string [] = []
  chunks_to_string (c ∷ cs) = chunk_to_string c ++ chunks_to_string cs

  unfoldable pub parse_txt_data_to_string : TxtData → Text
  parse_txt_data_to_string (single c) = chunk_to_string c
  parse_txt_data_to_string (chunks cs) = chunks_to_string cs

  unfoldable pub parse_txt_data_to_object : TxtData → Object
  parse_txt_data_to_object data' = object_of (split b';' (parse_txt_data_to_string data')) []

-- The slices of 255 units, on fuel
unfoldable pub chunk_loop : ℕ → Text → List Chunk
chunk_loop zero s = []
chunk_loop (suc fuel) [] = []
chunk_loop (suc fuel) (c ∷ s) = text (take 255 (c ∷ s)) ∷ chunk_loop fuel (drop 255 (c ∷ s))

-- Each slice takes a unit at least, so the length is fuel enough.
unfoldable pub chunk_data_if_needed : Text → TxtData
chunk_data_if_needed s =
    if leb (length s) 255 then single (text s) else chunks (chunk_loop (length s) s)
