-- ===== src/Packet/Order.antt =====
-- `Bin::Packet::deserialize` of src/bin.cpp on maps whose entries come in another order, as another
-- program may write them.
use mathlib.Core.List.{Permᴰ}
use mathlib.Core.List.Permᴰ.{nil, cons, swap, trans}
use dpaste.Prelude.{
  ℕ, ◌+◌, ◌≤◌, List, [], ◌∷◌, some, Bytes, codes, ◌≡◌, refl, sym, ap, ◌∙◌, arith, if◌then◌else◌,
}
use dpaste.Platform.{Msgpack}
use dpaste.Packet.{is_key, find_entry, find_map_value, read_field, deserialize}

module _ (K : Msgpack) where
  -- How many entries have the key.
  abbrev pub count_key : Bytes → List (K.Object × K.Object) → ℕ
  count_key key [] = 0
  count_key key ((k, v) ∷ es) = (if is_key K (K.as_text k) key then 1 else 0) + count_key key es

  count_key-perm :
      (key : Bytes) {es fs : List (K.Object × K.Object)}
      → Permᴰ es fs
      → count_key key es ≡ count_key key fs
  count_key-perm key nil = refl
  count_key-perm key (cons {a} {b} {l₁} {l₂} e p) =
      ap (λ x. count_key key (x ∷ l₁)) e
      ∙ ap (λ n. (if is_key K (K.as_text b.0) key then 1 else 0) + n) (count_key-perm key p)
  count_key-perm key (swap {a} {b} {a'} {b'} {l} e f) =
      let k = ap (λ z. is_key K (K.as_text z.0) key) e in
      let m = ap (λ z. is_key K (K.as_text z.0) key) f in ground arith
  count_key-perm key (trans p q) = count_key-perm key p ∙ count_key-perm key q

  tail_le :
      (key : Bytes) (e : K.Object × K.Object) (es : List (K.Object × K.Object))
      → count_key key (e ∷ es) ≤ 1
      → count_key key es ≤ 1
  tail_le key e es h = ground arith

  find_entry-perm :
      (key : Bytes) {es fs : List (K.Object × K.Object)}
      → Permᴰ es fs
      → count_key key es ≤ 1
      → find_entry K es key ≡ find_entry K fs key
  unfolding find_entry
  find_entry-perm key nil h = refl
  find_entry-perm key (cons {a} {b} {l₁} {l₂} e p) h =
      ap (λ x. find_entry K (x ∷ l₁) key) e
      ∙ ap (λ r. if is_key K (K.as_text b.0) key then some b.1 else r)
          (find_entry-perm key p (omega (arith, tail_le key b l₁ (rw e at h))))
  find_entry-perm key (swap {a} {b} {a'} {b'} {l} e f) h =
      let k = ap (λ z. is_key K (K.as_text z.0) key) e in
      let m = ap (λ z. is_key K (K.as_text z.0) key) f in
      let v = ap (λ z. z.1) e in let w = ap (λ z. z.1) f in ground (arith, h)
  find_entry-perm key (trans p q) h =
      find_entry-perm key p h ∙ find_entry-perm key q (rw (sym (count_key-perm key p)) h)

  read_field-perm :
      (key : Bytes) (o u : K.Object) (es fs : List (K.Object × K.Object))
      → K.map_entries o ≡ some es
      → K.map_entries u ≡ some fs
      → Permᴰ es fs
      → count_key key es ≤ 1
      → read_field K o key ≡ read_field K u key
  unfolding read_field find_map_value
  read_field-perm key o u es fs eo eu p h =
      rw (eo, find_map_value) (rw (eu, find_map_value) (rw (find_entry-perm key p h) refl))

  -- Two blobs whose maps have the same entries, in whatever order, are the same packet, or fail in
  -- the same way, if the keys `data` and `signature` come at most once each. Other entries may come
  -- as they like.
  pub deserialize-perm :
      (b c rest end : Bytes) (o u : K.Object) (es fs : List (K.Object × K.Object))
      → K.unpack b ≡ some (o, rest)
      → K.unpack c ≡ some (u, end)
      → K.map_entries o ≡ some es
      → K.map_entries u ≡ some fs
      → Permᴰ es fs
      → (count_key (codes "data") es ≤ 1) × (count_key (codes "signature") es ≤ 1)
      → deserialize K b ≡ deserialize K c
  unfolding deserialize
  deserialize-perm b c rest end o u es fs eb ec eo eu p (d, s) =
      rw (eb, deserialize)
        (rw (ec, deserialize)
          (rw (read_field-perm (codes "data") o u es fs eo eu p d)
            (rw (read_field-perm (codes "signature") o u es fs eo eu p s) refl)))
