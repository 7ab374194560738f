-- ===== src/Packet.antt =====
-- `Bin::Packet` and `findMapValue` of src/bin.cpp, over the library msgpack-c.
pub mod Laws
pub mod Order
use dpaste.Prelude.{
  ℕ, Bool, false, List, [], ◌∷◌, ◌++◌, Option, none, some, Bytes, codes, equal, if◌then◌else◌,
}
use dpaste.Effects.{Result, ok, throw, type_error, unpack_error}
use dpaste.Platform.{Msgpack}

abbrev pub proto_version : ℕ
proto_version = 0

pub record Packet : Type 0 where
  pub payload : Bytes
  pub signature : Bytes

module _ (K : Msgpack) where
  open K use {Object, pack_map, pack_text, pack_number, pack_bytes, as_text}

  abbrev pub is_key : Option Bytes → Bytes → Bool
  is_key none key = false
  is_key (some s) key = equal s key

  -- The loop of `findMapValue`.
  unfoldable pub find_entry : List (Object × Object) → Bytes → Option Object
  find_entry [] key = none
  find_entry ((k, v) ∷ es) key = if is_key (as_text k) key then some v else find_entry es key

  unfoldable pub find_map_value : Object → Bytes → Result (Option Object)
  unfolding find_entry
  find_map_value o key = elim (K.map_entries o) [
    | none ↦ throw type_error
    | some es ↦ ok (find_entry es key)
  ]

  unfoldable pub serialize : Packet → Bytes
  serialize p =
      pack_map 3
      ++ (pack_text (codes "v")
          ++ (pack_number proto_version
              ++ (pack_text (codes "data")
                  ++ (pack_bytes p.payload
                      ++ (pack_text (codes "signature") ++ pack_bytes p.signature)))))

  -- `if (auto d = findMapValue(…)) d->convert(v)`, on a vector that was cleared.
  unfoldable pub convert_found : Option Object → Result Bytes
  convert_found none = ok []
  convert_found (some o) = elim (K.convert_bytes o) [ none ↦ throw type_error | some b ↦ ok b ]

  abbrev then_result {ℓ κ} : {A : Type ℓ} {B : Type κ} → Result A → (A → Result B) → Result B
  then_result (ok a) f = f a
  then_result (throw e) f = throw e

  unfoldable pub read_field : Object → Bytes → Result Bytes
  unfolding find_map_value convert_found
  read_field o key = then_result (find_map_value o key) convert_found

  unfoldable pub deserialize : Bytes → Result Packet
  unfolding read_field
  deserialize pbuffer = elim (K.unpack pbuffer) [
    | none ↦ throw unpack_error
    | some (o, _) ↦ then_result (read_field o (codes "data")) (λ d.
        then_result (read_field o (codes "signature"))
          (λ s. ok (record { payload = d; signature = s })))
  ]
