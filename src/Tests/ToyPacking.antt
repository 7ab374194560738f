-- ===== src/Tests/ToyPacking.antt =====
-- A small packing format that meets what is relied on of msgpack: a tag, then a size or a number.
use dpaste.Prelude.{
  ℕ, zero, suc, List, [], ◌∷◌, ◌++◌, Option, none, some, Bytes, length, take, drop, take-append,
  drop-append, map, ◌≡◌, refl, ap, ◌∙◌, append_assoc, ◌==◌, if◌then◌else◌, Bool-cases, Option-cases,
  inl, inr,
}
use dpaste.Platform.{Msgpack, Entry, all_packed, IsLawful}

pub data Leaf : Type 0 where
  text_leaf : Bytes → Leaf
  bytes_leaf : Bytes → Leaf
  number_leaf : ℕ → Leaf

pub data Object : Type 0 where
  leaf : Leaf → Object
  mapping : List (Leaf × Leaf) → Object

abbrev pub read_sized : (Bytes → Leaf) → ℕ → Bytes → Option (Leaf × Bytes)
read_sized make n r = some (make (take n r), drop n r)

unfoldable pub unpack_leaf : Bytes → Option (Leaf × Bytes)
unpack_leaf [] = none
unpack_leaf (tag ∷ []) = none
unpack_leaf (tag ∷ n ∷ r) =
    if tag == 1
    then read_sized text_leaf n r
    else if tag == 2
    then read_sized bytes_leaf n r
    else if tag == 3
    then some (number_leaf n, r)
    else none

abbrev with_value : Leaf → Option (Leaf × Bytes) → Option ((Leaf × Leaf) × Bytes)
with_value k none = none
with_value k (some (v, r)) = some ((k, v), r)

abbrev value_after : Option (Leaf × Bytes) → Option ((Leaf × Leaf) × Bytes)
value_after none = none
value_after (some (k, r)) = with_value k (unpack_leaf r)

unfoldable pub unpack_pair : Bytes → Option ((Leaf × Leaf) × Bytes)
unpack_pair b = value_after (unpack_leaf b)

abbrev then_more :
    (Leaf × Leaf) → Option (List (Leaf × Leaf) × Bytes) → Option (List (Leaf × Leaf) × Bytes)
then_more p none = none
then_more p (some (ps, r)) = some (p ∷ ps, r)

unfoldable pub unpack_pairs : ℕ → Bytes → Option (List (Leaf × Leaf) × Bytes)
unpack_pairs zero b = some ([], b)
unpack_pairs (suc n) b = elim (unpack_pair b) [
  | none ↦ none
  | some (p, r) ↦ then_more p (unpack_pairs n r)
]

abbrev as_leaf : Option (Leaf × Bytes) → Option (Object × Bytes)
as_leaf none = none
as_leaf (some (l, r)) = some (leaf l, r)

abbrev as_mapping : Option (List (Leaf × Leaf) × Bytes) → Option (Object × Bytes)
as_mapping none = none
as_mapping (some (ps, r)) = some (mapping ps, r)

unfoldable pub unpack : Bytes → Option (Object × Bytes)
unpack [] = none
unpack (tag ∷ []) = none
unpack (tag ∷ n ∷ r) =
    if tag == 0 then as_mapping (unpack_pairs n r) else as_leaf (unpack_leaf (tag ∷ n ∷ r))

abbrev wrap : Leaf × Leaf → Object × Object
wrap (k, v) = (leaf k, leaf v)

abbrev pub toy_entries : Object → Option (List (Object × Object))
toy_entries (mapping es) = some (map wrap es)
toy_entries (leaf l) = none

abbrev pub toy_text : Object → Option Bytes
toy_text (leaf (text_leaf s)) = some s
toy_text _ = none

abbrev pub toy_bytes : Object → Option Bytes
toy_bytes (leaf (bytes_leaf s)) = some s
toy_bytes _ = none

abbrev pub toy_packing : Msgpack
toy_packing = record {
  Object = Object;
  pack_map = λ n. 0 ∷ n ∷ [];
  pack_text = λ s. 1 ∷ length s ∷ s;
  pack_number = λ n. 3 ∷ n ∷ [];
  pack_bytes = λ s. 2 ∷ length s ∷ s;
  unpack = unpack;
  map_entries = toy_entries;
  as_text = toy_text;
  convert_bytes = toy_bytes;
}

unpack_text :
    (s rest : Bytes) → unpack ((1 ∷ length s ∷ s) ++ rest) ≡ some (leaf (text_leaf s), rest)
unfolding unpack unpack_leaf
unpack_text s rest = rw (take-append s rest, drop-append s rest)

unpack_bytes :
    (s rest : Bytes) → unpack ((2 ∷ length s ∷ s) ++ rest) ≡ some (leaf (bytes_leaf s), rest)
unfolding unpack unpack_leaf
unpack_bytes s rest = rw (take-append s rest, drop-append s rest)

unpack_number : (n : ℕ) (rest : Bytes) → unpack (3 ∷ n ∷ rest) ≡ some (leaf (number_leaf n), rest)
unfolding unpack unpack_leaf
unpack_number n rest = refl

-- What is read as a leaf is read so by the part for leaves.
leaf_of_unpack :
    (b r : Bytes) (l : Leaf) → unpack b ≡ some (leaf l, r) → unpack_leaf b ≡ some (l, r)
unfolding unpack
leaf_of_unpack [] r l h = cc
leaf_of_unpack (tag ∷ []) r l h = cc
leaf_of_unpack (tag ∷ n ∷ b) r l h = elim (Bool-cases (tag == 0)) [
  | inl t ↦ elim (Option-cases (unpack_pairs n b)) [
    | inl e ↦ cc (rw (t, e) at h)
    | inr ((ps, q), e) ↦ cc (rw (t, e) at h)
  ]
  | inr f ↦ elim (Option-cases (unpack_leaf (tag ∷ n ∷ b))) [
    | inl e ↦ cc (rw (f, e) at h)
    | inr ((k, q), e) ↦ e ∙ cc (rw (f, e) at h)
  ]
]

-- An object that is no map is a leaf.
leaf_of_flat : (o : Object) → toy_entries o ≡ none → (l : Leaf) × (o ≡ leaf l)
leaf_of_flat (leaf l) h = (l, refl)
leaf_of_flat (mapping es) h = cc

unpack_pair_lem :
    (a b rest : Bytes) (k v : Leaf)
    → unpack_leaf (a ++ (b ++ rest)) ≡ some (k, b ++ rest)
    → unpack_leaf (b ++ rest) ≡ some (v, rest)
    → unpack_pair ((a ++ b) ++ rest) ≡ some ((k, v), rest)
unfolding unpack_pair
unpack_pair_lem a b rest k v h g = rw (append_assoc a b rest, h) (rw g)

-- The leaves that an entry is read as.
record Leaves (e : Entry toy_packing) : Type 0 where
  pair : Leaf × Leaf
  wrapped : wrap pair ≡ e.entry
  reads : (rest : Bytes) → unpack_pair (e.packed ++ rest) ≡ some (pair, rest)

entry-Leaves : (e : Entry toy_packing) → Leaves e
entry-Leaves e =
    let (k, is_k) = leaf_of_flat e.entry.0 e.key_flat in
    let (v, is_v) = leaf_of_flat e.entry.1 e.flat in
    record {
      pair = (k, v);
      wrapped = cc;
      reads = λ rest. rw e.joined (
          unpack_pair_lem e.key_bytes e.value_bytes rest k v
            (leaf_of_unpack _ _ k (e.key_packs (e.value_bytes ++ rest) ∙ rw is_k))
            (leaf_of_unpack _ _ v (e.value_packs rest ∙ rw is_v)));
    }

abbrev all_pairs : List (Entry toy_packing) → List (Leaf × Leaf)
all_pairs [] = []
all_pairs (e ∷ es) = (entry-Leaves e).pair ∷ all_pairs es

wrap-all_pairs : (es : List (Entry toy_packing)) → map wrap (all_pairs es) ≡ map (λ e. e.entry) es
wrap-all_pairs [] = refl
wrap-all_pairs (e ∷ es) =
    rw (wrap-all_pairs es) (ap (λ p. p ∷ map (λ e. e.entry) es) (entry-Leaves e).wrapped)

unpack_pairs-all :
    (es : List (Entry toy_packing)) (rest : Bytes)
    → unpack_pairs (length es) (all_packed toy_packing es ++ rest) ≡ some (all_pairs es, rest)
unfolding unpack_pairs
unpack_pairs-all [] rest = refl
unpack_pairs-all (e ∷ es) rest = rw (append_assoc e.packed (all_packed toy_packing es) rest) (
    rw ((entry-Leaves e).reads (all_packed toy_packing es ++ rest), unpack_pairs)
      (rw (unpack_pairs-all es rest)))

unpack_map :
    (es : List (Entry toy_packing)) (rest : Bytes)
    → unpack (0 ∷ length es ∷ (all_packed toy_packing es ++ rest))
      ≡ some (mapping (all_pairs es), rest)
unfolding unpack
unpack_map es rest = rw (unpack_pairs-all es rest)

pub toy_packing-IsLawful : IsLawful toy_packing
toy_packing-IsLawful = record {
  unpack_empty = unfold unpack in refl;
  text = λ s h. (leaf (text_leaf s), unpack_text s, refl, refl);
  number = λ n h. (leaf (number_leaf n), unpack_number n, refl);
  bytes = λ s h. (leaf (bytes_leaf s), unpack_bytes s, refl, refl);
  mapping = λ es h. (mapping (all_pairs es), unpack_map es, ap some (wrap-all_pairs es));
}
