-- ===== src/Tests/Packets.antt =====
-- Packets in the toy format.
use mathlib.Core.List.Permᴰ.{swap, trans, cons}
use dpaste.Prelude.{[], ◌∷◌, ◌++◌, Bytes, codes, equal, ◌≡◌, refl, arith}
use dpaste.Effects.{ok}
use dpaste.Packet.{Packet, serialize, deserialize}
use dpaste.Packet.Order.{deserialize-perm}
use dpaste.Packet.Laws.{deserialize-serialize}
use dpaste.Tests.ToyPacking.{
  toy_packing, toy_packing-IsLawful, Object, leaf, text_leaf, bytes_leaf, number_leaf, unpack,
  unpack_pairs, unpack_pair, unpack_leaf,
}

abbrev packet : Packet
packet = record { payload = codes "hello"; signature = codes "me" }

deserialize-serialize_example : deserialize toy_packing (serialize toy_packing packet) ≡ ok packet
deserialize-serialize_example =
    deserialize-serialize toy_packing toy_packing-IsLawful packet (omega arith) (omega arith)

-- The same packet, with the signature first and the data last.
abbrev other_order : Bytes
other_order =
    toy_packing.pack_map 3
    ++ (toy_packing.pack_text (codes "signature")
        ++ (toy_packing.pack_bytes packet.signature
            ++ (toy_packing.pack_text (codes "v")
                ++ (toy_packing.pack_number 0
                    ++ (toy_packing.pack_text (codes "data")
                        ++ toy_packing.pack_bytes packet.payload)))))

abbrev version : Object × Object
version = (leaf (text_leaf (codes "v")), leaf (number_leaf 0))

abbrev data_entry : Object × Object
data_entry = (leaf (text_leaf (codes "data")), leaf (bytes_leaf packet.payload))

abbrev signature_entry : Object × Object
signature_entry = (leaf (text_leaf (codes "signature")), leaf (bytes_leaf packet.signature))

deserialize-perm_example :
    deserialize toy_packing (serialize toy_packing packet) ≡ deserialize toy_packing other_order
unfolding serialize unpack unpack_pairs unpack_pair unpack_leaf equal
deserialize-perm_example =
    deserialize-perm toy_packing (serialize toy_packing packet) other_order [] [] _ _
      (version ∷ data_entry ∷ signature_entry ∷ []) (signature_entry ∷ version ∷ data_entry ∷ [])
      refl refl refl refl (trans (cons refl (swap refl refl)) (swap refl refl))
      (omega arith, omega arith)
