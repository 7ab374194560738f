-- ===== src/Frame/Kept.antt =====
-- What `Bin::paste` and `Bin::get` of src/bin.cpp leave alone: the standard output, the seed of the
-- pins, and the flags that say what has been initialised.
use dpaste.Prelude.{Bool, Option, Bytes, ◌≡◌, refl}
use dpaste.Params.{Parameters}
use dpaste.Pin.{random_pin}
use dpaste.Platform.{Platform, Process}
use dpaste.Bin.{Bin, bin_get, bin_paste}
use dpaste.Frame.{View, At, Respects}
use dpaste.Frame.Bin.{bin_get-Respects, bin_paste-Respects}

abbrev KeptView : {P : Platform} → Process P → View P → Type 0
KeptView s (w, v, o, c, g) =
    (o ≡ s.out)
    × (c ≡ s.cipher_initialized)
    × (g ≡ s.gpg_initialized)
    × (v.initialized ≡ s.statics.initialized)
    × (v.seed ≡ s.statics.seed)

-- The second state has what the first had there.
abbrev pub Kept : {P : Platform} → Process P → Process P → Type 0
Kept s t = At (KeptView s) t

module _ {P : Platform} where
  KeptView-Respects : (s : Process P) → Respects P (KeptView s)
  unfolding random_pin
  KeptView-Respects s = record {
    draw = λ w v o c g h. h;
    encrypt = λ signers keys text w v o c g h. h;
    decrypt_verify = λ text w v o c g h. h;
    sign = λ keys text w v o c g h. h;
    verify = λ signature text w v o c g h. h;
    aes_encrypt = λ text pwd w v o c g h. h;
    ask = λ client code w v o c g h. h;
    search = λ code w v o c g h. h;
  }

  -- `get`, whatever it returns or throws.
  pub bin_get-Kept :
      (b : Bin) (uri : Bytes) (no_decrypt : Bool) (s : Process P)
      → Kept s (bin_get P b uri no_decrypt s).1
  bin_get-Kept b uri no_decrypt s =
      bin_get-Respects (KeptView-Respects s) b uri no_decrypt s (refl, refl, refl, refl, refl)

  -- `paste`, whatever the encryption, and whatever it returns or throws.
  pub bin_paste-Kept :
      (b : Bin) (text : Bytes) (params : Option Parameters) (s : Process P)
      → Kept s (bin_paste P b text params s).1
  bin_paste-Kept b text params s =
      bin_paste-Respects (KeptView-Respects s) b text params s
        (record { put_server = λ blob w v o c g h. h; put_table = λ blob w v o c g h. h })
        (refl, refl, refl, refl, refl)
