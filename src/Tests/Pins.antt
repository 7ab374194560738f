-- ===== src/Tests/Pins.antt =====
-- Pins and addresses.
use dpaste.Prelude.{ℕ, ◌++◌, Bytes, codes, ◌≡◌, ◌≢◌, refl, ◌⊎◌}
use dpaste.Effects.{ok}
use dpaste.Pin.{format_pin}
use dpaste.Uri.{dpaste_uri_prefix, code_from_dpaste_uri}
use dpaste.Uri.Laws.{FirstAt, code_from_dpaste_uri_total}

pins : (format_pin 0x2a ≡ codes "0000002A") × (format_pin 0xdeadbeef ≡ codes "DEADBEEF")
unfolding format_pin
pins = (refl, refl)

-- The cases of tests/bin.cpp: a prefix, none, and one in upper case.
addresses :
    (code_from_dpaste_uri (codes "dpaste:74236E62") ≡ ok (codes "74236E62"))
    × (code_from_dpaste_uri (codes "74236E62") ≡ ok (codes "74236E62"))
    × (code_from_dpaste_uri (codes "DPASTE:74236E62") ≡ ok (codes "DPASTE:74236E62"))
unfolding code_from_dpaste_uri
addresses = (refl, refl, refl)

abbrev address : Bytes
address = codes "see dpaste:74236E62"

code_from_dpaste_uri_total_example :
    ((i : ℕ) × (f : FirstAt dpaste_uri_prefix address i) × (code_from_dpaste_uri address
        ≡ ok f.after))
    ⊎ (((a b : Bytes) → address ≢ a ++ (dpaste_uri_prefix ++ b))
        × (code_from_dpaste_uri address ≡ ok address))
code_from_dpaste_uri_total_example = code_from_dpaste_uri_total address
