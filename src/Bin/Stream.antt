-- ===== src/Bin/Stream.antt =====
-- `Bin::paste` of a stream, of src/bin.cpp, and then `Bin::get`.
use dpaste.Prelude.{
  ◌<◌, ◌^◌, [], none, true, Bool, false, Bytes, length-take, take, ◌≡◌, ◌≢◌, arith,
}
use dpaste.Effects.{ok}
use dpaste.Params.{no_scheme}
use dpaste.Platform.{Platform, Process}
use dpaste.Gpg.{is_gpg_encrypted}
use dpaste.Bin.{Bin, bin_get, bin_paste_stream, data_from_stream}
use dpaste.Bin.Published.{Sound}
use dpaste.Bin.RoundTrip.{IsUnused, bin_get-bin_paste}

module _ (P : Platform) (b : Bin) where
  -- Of a text on the standard input, pasted with no encryption, `get` returns the part up to the
  -- largest size of a value, and nothing tells that the rest is lost: under the conditions of a plain
  -- paste, and if that size is below 2 ^ 32.
  pub bin_get-bin_paste_stream :
      (input uri : Bytes) (no_decrypt : Bool) (s : Process P)
      → Sound P b
      → P.garbage.scheme ≡ no_scheme
      → is_gpg_encrypted P (take P.dht.max_value_size input) ≡ false
      → P.dht.max_value_size < 2 ^ 32
      → IsUnused P b (take P.dht.max_value_size input) none s
      → (bin_paste_stream P b input none s).0 ≡ ok uri
      → uri ≢ []
      → (bin_get P b uri no_decrypt (bin_paste_stream P b input none s).1).0
        ≡ ok (true, take P.dht.max_value_size input)
  unfolding bin_paste_stream data_from_stream
  bin_get-bin_paste_stream input uri no_decrypt s S scheme plain room unused h ne =
      bin_get-bin_paste P b (take P.dht.max_value_size input) uri no_decrypt s S scheme plain
        (omega (arith, length-take P.dht.max_value_size input)) unused h ne
