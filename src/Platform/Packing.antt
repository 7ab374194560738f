-- ===== src/Platform/Packing.antt =====
-- The part of msgpack-c that the program calls, with its documented behaviour: what the packer
-- writes, within the sizes of the format, is read back, and an empty buffer holds no object.
use dpaste.Prelude.{ℕ, ◌^◌, ◌<◌, List, [], ◌∷◌, ◌++◌, Option, none, some, Bytes, length, map, ◌≡◌}

pub record Msgpack : Type 1 where
  -- `msgpack::object`
  pub Object : Type 0
  pub pack_map : ℕ → Bytes
  pub pack_text : Bytes → Bytes
  pub pack_number : ℕ → Bytes
  pub pack_bytes : Bytes → Bytes
  -- `msgpack::unpack`: the first object of a buffer and what follows it; `none` for its exception.
  pub unpack : Bytes → Option (Object × Bytes)
  -- The entries of an object of type MAP, the text of one of type STR, and `convert` into a vector
  -- of bytes, which throws a `type_error`.
  pub map_entries : Object → Option (List (Object × Object))
  pub as_text : Object → Option Bytes
  pub convert_bytes : Object → Option Bytes

module _ (K : Msgpack) where
  -- These bytes are one object, whatever follows them.
  abbrev pub Packs : Bytes → K.Object → Type 0
  Packs b o = (rest : Bytes) → K.unpack (b ++ rest) ≡ some (o, rest)

  -- A key and a value, packed one after the other; neither is a map.
  pub record Entry : Type 0 where
    pub packed : Bytes
    pub entry : K.Object × K.Object
    pub key_bytes : Bytes
    pub value_bytes : Bytes
    pub key_packs : Packs key_bytes entry.0
    pub value_packs : Packs value_bytes entry.1
    pub key_flat : K.map_entries entry.0 ≡ none
    pub flat : K.map_entries entry.1 ≡ none
    pub joined : packed ≡ key_bytes ++ value_bytes

  abbrev pub all_packed : List Entry → Bytes
  all_packed [] = []
  all_packed (e ∷ es) = e.packed ++ all_packed es

  pub record IsLawful : Type 0 where
    pub unpack_empty : K.unpack [] ≡ none
    pub text :
        (s : Bytes)
        → length s < 2 ^ 32
        → (o : K.Object) × Packs (K.pack_text s) o
          × (K.map_entries o ≡ none)
          × (K.as_text o ≡ some s)
    pub number :
        (n : ℕ) → n < 2 ^ 8 → (o : K.Object) × Packs (K.pack_number n) o × (K.map_entries o ≡ none)
    pub bytes :
        (s : Bytes)
        → length s < 2 ^ 32
        → (o : K.Object) × Packs (K.pack_bytes s) o
          × (K.map_entries o ≡ none)
          × (K.convert_bytes o ≡ some s)
    pub mapping :
        (es : List Entry)
        → length es < 2 ^ 32
        → (o : K.Object) × Packs (K.pack_map (length es) ++ all_packed es) o
          × (K.map_entries o ≡ some (map (λ e. e.entry) es))
