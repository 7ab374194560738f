-- ===== src/Packet/Laws.antt =====
-- `Bin::Packet` of src/bin.cpp: buffers that are packets, and buffers that are none.
use dpaste.Prelude.{
  ℕ, ◌^◌, ◌<◌, List, [], ◌∷◌, ◌++◌, none, some, Bytes, codes, equal, length, map, ◌≡◌, refl, sym,
  ap, ◌∙◌, arith, append-nil, append_assoc, is_empty, false,
}
use dpaste.Effects.{ok, throw, unpack_error, type_error}
use dpaste.Platform.{Msgpack, Entry, all_packed, IsLawful}
use dpaste.Packet.{
  Packet, find_entry, find_map_value, serialize, convert_found, read_field, deserialize,
}

module _ (K : Msgpack) where
  abbrev three : (k v k' v' k'' v'' : K.Object) → List (K.Object × K.Object)
  three k v k' v' k'' v'' = (k, v) ∷ (k', v') ∷ (k'', v'') ∷ []

  find_three :
      (k v k' v' k'' v'' : K.Object)
      → K.as_text k ≡ some (codes "v")
      → K.as_text k' ≡ some (codes "data")
      → K.as_text k'' ≡ some (codes "signature")
      → (find_entry K (three k v k' v' k'' v'') (codes "data") ≡ some v')
        × (find_entry K (three k v k' v' k'' v'') (codes "signature") ≡ some v'')
  unfolding find_entry equal
  find_three k v k' v' k'' v'' t t' t'' = (rw (t, t'), rw (t, t', t''))

  -- `read_field` by its parts.
  read_field_lem :
      (o v : K.Object) (es : List (K.Object × K.Object)) (name b : Bytes)
      → K.map_entries o ≡ some es
      → find_entry K es name ≡ some v
      → K.convert_bytes v ≡ some b
      → read_field K o name ≡ ok b
  unfolding read_field
  read_field_lem o v es name b m f c = rw (m, find_map_value) (rw f (rw (c, convert_found)))

  -- A buffer that holds an object with both fields is a packet.
  deserialize_lem :
      (buffer rest : Bytes) (o : K.Object) (p : Packet)
      → K.unpack buffer ≡ some (o, rest)
      → read_field K o (codes "data") ≡ ok p.payload
      → read_field K o (codes "signature") ≡ ok p.signature
      → deserialize K buffer ≡ ok p
  unfolding deserialize
  deserialize_lem buffer rest o p u d s = rw (u, deserialize) (simp (d, s))

module _ (K : Msgpack) (L : IsLawful K) where
  bytes_entry : (name s : Bytes) → length name < 2 ^ 32 → length s < 2 ^ 32 → Entry K
  bytes_entry name s h l =
      let (k, packs_k, key_no_map, text_k) = L.text name h in
      let (v, packs_v, no_map, convert_v) = L.bytes s l in
      record {
        packed = K.pack_text name ++ K.pack_bytes s;
        entry = (k, v);
        key_bytes = K.pack_text name;
        value_bytes = K.pack_bytes s;
        key_packs = packs_k;
        value_packs = packs_v;
        key_flat = key_no_map;
        flat = no_map;
        joined = refl;
      }

  number_entry : (name : Bytes) (n : ℕ) → length name < 2 ^ 32 → n < 2 ^ 8 → Entry K
  number_entry name n h l =
      let (k, packs_k, key_no_map, text_k) = L.text name h in
      let (v, packs_v, no_map) = L.number n l in
      record {
        packed = K.pack_text name ++ K.pack_number n;
        entry = (k, v);
        key_bytes = K.pack_text name;
        value_bytes = K.pack_number n;
        key_packs = packs_k;
        value_packs = packs_v;
        key_flat = key_no_map;
        flat = no_map;
        joined = refl;
      }

  entries : (p : Packet) → length p.payload < 2 ^ 32 → length p.signature < 2 ^ 32 → List (Entry K)
  entries p d s =
      number_entry (codes "v") 0 (omega arith) (omega arith)
      ∷ bytes_entry (codes "data") p.payload (omega arith) d
      ∷ bytes_entry (codes "signature") p.signature (omega arith) s
      ∷ []

  serialize-entries :
      (p : Packet) (d : length p.payload < 2 ^ 32) (s : length p.signature < 2 ^ 32)
      → serialize K p ≡ K.pack_map 3 ++ all_packed K (entries p d s)
  unfolding serialize entries number_entry bytes_entry
  serialize-entries p d s = simp (append_assoc, append-nil)

  deserialize-entries :
      (p : Packet) (d : length p.payload < 2 ^ 32) (s : length p.signature < 2 ^ 32) (o : K.Object)
      → K.map_entries o ≡ some (map (λ e. e.entry) (entries p d s))
      → (read_field K o (codes "data") ≡ ok p.payload)
        × (read_field K o (codes "signature") ≡ ok p.signature)
  unfolding entries number_entry bytes_entry
  deserialize-entries p d s o h =
      let (k, packs_k, m, t) = L.text (codes "v") (omega arith) in
      let (v, packs_v, n) = L.number 0 (omega arith) in
      let (k', packs_k', m', t') = L.text (codes "data") (omega arith) in
      let (v', packs_v', n', c') = L.bytes p.payload d in
      let (k'', packs_k'', m'', t'') = L.text (codes "signature") (omega arith) in
      let (v'', packs_v'', n'', c'') = L.bytes p.signature s in
      let (f, g) = find_three K k v k' v' k'' v'' t t' t'' in
      (read_field_lem K o v' _ _ p.payload h f c', read_field_lem K o v'' _ _ p.signature h g c'')

  length-entries :
      (p : Packet) (d : length p.payload < 2 ^ 32) (s : length p.signature < 2 ^ 32)
      → length (entries p d s) ≡ 3
  unfolding entries
  length-entries p d s = refl

  -- Reading back a serialised packet gives the packet, whatever its data and signature are, up to
  -- the sizes that the format can express.
  pub deserialize-serialize :
      (p : Packet)
      → length p.payload < 2 ^ 32
      → length p.signature < 2 ^ 32
      → deserialize K (serialize K p) ≡ ok p
  deserialize-serialize p d s =
      let (o, packs, m) = L.mapping (entries p d s) (rw (length-entries p d s) (omega arith)) in
      let (f, g) = deserialize-entries p d s o m in
      deserialize_lem K (serialize K p) [] o p
        (ap K.unpack (serialize-entries p d s ∙ sym (append-nil _))
          ∙ ap (λ n. K.unpack ((K.pack_map n ++ all_packed K (entries p d s)) ++ []))
              (sym (length-entries p d s))
          ∙ packs [])
        f g

  deserialize_empty : deserialize K [] ≡ throw unpack_error
  unfolding deserialize
  deserialize_empty = rw (L.unpack_empty, deserialize)

  -- A serialised packet is not empty.
  pub serialize-full :
      (p : Packet)
      → length p.payload < 2 ^ 32
      → length p.signature < 2 ^ 32
      → is_empty (serialize K p) ≡ false
  serialize-full p d s = full (serialize K p) (deserialize-serialize p d s)
    where
      full : (b : Bytes) → deserialize K b ≡ ok p → is_empty b ≡ false
      full [] h = cc (deserialize_empty)
      full (x ∷ b) h = refl

module _ (K : Msgpack) where
  pub deserialize-unpack : (b : Bytes) → K.unpack b ≡ none → deserialize K b ≡ throw unpack_error
  unfolding deserialize
  deserialize-unpack b u = rw (u, deserialize)

  pub deserialize-type :
      (b rest : Bytes) (o : K.Object)
      → K.unpack b ≡ some (o, rest)
      → K.map_entries o ≡ none
      → deserialize K b ≡ throw type_error
  unfolding deserialize read_field find_map_value
  deserialize-type b rest o u m = rw (u, deserialize) (rw (m, read_field, find_map_value))
