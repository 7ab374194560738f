-- ===== src/Bin/Outcomes.antt =====
-- How a call of `Bin::get` of src/bin.cpp can end.
use dpaste.Prelude.{
  Bool, true, false, List, [], ◌∷◌, Option, none, some, Bytes, is_empty, ◌≡◌, refl, inl, inr,
  Bool-cases, arith,
}
use dpaste.Effects.{
  Exception, out_of_range, null_pointer, unpack_error, type_error, gpgme_error, decrypt_error,
  json_error, Result, ok, throw, Result-cases, give, try_catch, ◌>>=◌, ◌>>◌,
}
use dpaste.Uri.{code_from_dpaste_uri}
use dpaste.Platform.{Platform, Process, Signature, Do}
use dpaste.Log.{dpaste_msg}
use dpaste.Aes.{aes_process_cipher_text}
use dpaste.Gpg.{
  Gpg, make_gpg, verify, decrypt_and_verify, comment_on_first, comment_on_signature,
  gpg_process_cipher_text,
}
use dpaste.Cipher.{
  Cipher, gpg_cipher, aes_cipher, cipher_of_text, cipher_of_scheme, process_cipher_text,
}
use dpaste.Http.{HttpClient, http_get}
use dpaste.Http.{read_body}
use dpaste.Node.{node_get}
use dpaste.Packet.{Packet, deserialize}
use dpaste.Bin.{
  Bin, fetch, decrypt, decrypt_params, check, check_signature, open_packet, recover, bin_get,
}

-- No exception but those that pass.
abbrev passes : {A : Type 0} → (Exception → Bool) → Result A → Bool
passes p (ok a) = true
passes p (throw e) = p e

-- What is thrown while a packet is unpacked, and what is thrown after that.
abbrev is_reading : Exception → Bool
is_reading type_error = true
is_reading unpack_error = true
is_reading _ = false

-- `crash` says whether a call through an empty pointer is one of these.
abbrev pub is_crypto : Bool → Exception → Bool
is_crypto crash null_pointer = crash
is_crypto crash (gpgme_error e m) = true
is_crypto crash (decrypt_error m) = true
is_crypto crash _ = false

abbrev pub is_opening : Exception → Bool
is_opening type_error = true
is_opening unpack_error = true
is_opening e = is_crypto true e

abbrev is_request : Exception → Bool
is_request json_error = true
is_request _ = false

-- A success, or an exception of a cipher.
abbrev pub is_deciphered : Bool → Result (Bool × Bytes) → Bool
is_deciphered crash (ok (b, text)) = b
is_deciphered crash (throw e) = is_crypto crash e

-- A success, or any exception of these.
abbrev pub is_opened : Result (Bool × Bytes) → Bool
is_opened (ok (b, text)) = b
is_opened (throw e) = is_opening e

-- What leaves `get`.
abbrev pub is_escape : Exception → Bool
is_escape out_of_range = true
is_escape null_pointer = true
is_escape unpack_error = true
is_escape json_error = true
is_escape _ = false

-- A success with any text, a failure with no text, or such an exception.
abbrev pub is_outcome : Result (Bool × Bytes) → Bool
is_outcome (ok (true, text)) = true
is_outcome (ok (false, text)) = is_empty text
is_outcome (throw e) = is_escape e

module _ (P : Platform) (crash : Bool)
    (context : crash ≡ false → (w : P.World) → P.gpgme.has_context w ≡ true) where
  passes-make_gpg : (s : Process P) → passes (is_crypto crash) (make_gpg P [] s).0 ≡ true
  unfolding make_gpg
  passes-make_gpg s = elim (Bool-cases crash) [
    | inl may ↦ ground (arith, may)
    | inr never ↦ ground (arith, context never s.world)
  ]

  passes-verify :
      (g : Gpg P) (signature text : Bytes) (s : Process P)
      → passes (is_crypto crash) (verify P g signature text s).0 ≡ true
  unfolding verify
  passes-verify g signature text s = ground arith

  passes-decrypt_and_verify :
      (g : Gpg P) (text : Bytes) (s : Process P)
      → passes (is_crypto crash) (decrypt_and_verify P g text s).0 ≡ true
  unfolding decrypt_and_verify
  passes-decrypt_and_verify g text s = ground arith

  passes-comment_on_first :
      (sigs : List Signature) (s : Process P)
      → passes (is_crypto crash) (comment_on_first P sigs s).0 ≡ true
  unfolding comment_on_first comment_on_signature dpaste_msg
  passes-comment_on_first [] s = refl
  passes-comment_on_first (sig ∷ sigs) s = ground arith

  passes-gpg_process_cipher_text :
      (g : Gpg P) (text : Bytes) (s : Process P)
      → passes (is_crypto crash) (gpg_process_cipher_text P g text none s).0 ≡ true
  unfolding gpg_process_cipher_text dpaste_msg
  passes-gpg_process_cipher_text g text s =
      grind (arith, passes-decrypt_and_verify, passes-comment_on_first)

  passes-process_cipher_text :
      (c : Cipher P) (text pwd : Bytes) (s : Process P)
      → passes (is_crypto crash) (process_cipher_text P c text (decrypt_params P c pwd) s).0 ≡ true
  unfolding process_cipher_text aes_process_cipher_text dpaste_msg
  passes-process_cipher_text (gpg_cipher g) text pwd s = passes-gpg_process_cipher_text g text s
  passes-process_cipher_text aes_cipher text pwd s = ground arith

  passes-cipher_of_text :
      (text code : Bytes) (s : Process P)
      → passes (is_crypto crash) (cipher_of_text P text code s).0 ≡ true
  unfolding cipher_of_text
  passes-cipher_of_text text code s = ground (arith, passes-make_gpg s)

  passes-check_signature :
      (signature text : Bytes) (s : Process P)
      → passes (is_crypto crash) (check_signature P signature text s).0 ≡ true
  unfolding check_signature cipher_of_scheme dpaste_msg
  passes-check_signature signature text s =
      grind (arith, passes-make_gpg, passes-verify, passes-comment_on_first)

  is_deciphered-rest :
      (c : Option (Cipher P)) (p : Packet) (pwd : Bytes) (no_decrypt : Bool) (s : Process P)
      → let opened : Do P (Bool × Bytes) = (do
        text ← decrypt P c p pwd no_decrypt
        check P c p text
        give (true, text)) in
        is_deciphered crash (opened s).0 ≡ true
  is_deciphered-rest none p pwd no_decrypt s =
      ground (arith, passes-check_signature p.signature p.payload s)
  is_deciphered-rest (some c) p pwd true s = ground arith
  is_deciphered-rest (some c) p pwd false s =
      ground (arith, passes-process_cipher_text c p.payload pwd s)

  pub is_deciphered-open_packet :
      (blob code pwd : Bytes) (p : Packet) (no_decrypt : Bool) (s : Process P)
      → deserialize P.msgpack blob ≡ ok p
      → is_deciphered crash (open_packet P blob code pwd no_decrypt s).0 ≡ true
  unfolding open_packet
  is_deciphered-open_packet blob code pwd p no_decrypt s d =
      rw d (grind (arith, passes-cipher_of_text, is_deciphered-rest))

module _ (P : Platform) where
  pub passes-deserialize : (blob : Bytes) → passes is_reading (deserialize P.msgpack blob) ≡ true
  unfolding deserialize
  passes-deserialize blob = ground arith

  pub is_opened-open_packet :
      (blob code pwd : Bytes) (no_decrypt : Bool) (s : Process P)
      → is_opened (open_packet P blob code pwd no_decrypt s).0 ≡ true
  unfolding open_packet
  is_opened-open_packet blob code pwd no_decrypt s =
      elim (Result-cases (deserialize P.msgpack blob)) [
        | inl (p, d) ↦
            let t = is_deciphered-open_packet P true (λ h. cc) blob code pwd p no_decrypt s d in
            ground arith
        | inr (e, d) ↦ let t = passes-deserialize blob in ground arith
      ]

  passes-read_body :
      (body : Bytes) (s : Process P) → passes is_request (read_body P body s).0 ≡ true
  unfolding read_body
  passes-read_body body s = ground arith

  passes-http_get :
      (c : HttpClient) (code : Bytes) (s : Process P)
      → passes is_request (http_get P c code s).0 ≡ true
  unfolding http_get
  passes-http_get c code s = grind (arith, passes-read_body)

  passes-fetch :
      (b : Bin) (code : Bytes) (s : Process P) → passes is_request (fetch P b code s).0 ≡ true
  unfolding fetch node_get
  passes-fetch b code s = ground (arith, passes-http_get b.http_client code s)

  is_outcome-recover :
      (blob : Bytes) (e : Exception) (s : Process P)
      → is_opening e ≡ true
      → is_outcome (recover P blob e s).0 ≡ true
  unfolding dpaste_msg
  is_outcome-recover blob e s h = ground arith

  -- The text of a request that was answered, opened.
  is_outcome-caught :
      (blob code pwd : Bytes) (no_decrypt : Bool) (s : Process P)
      → is_outcome (try_catch (open_packet P blob code pwd no_decrypt) (recover P blob) s).0 ≡ true
  is_outcome-caught blob code pwd no_decrypt s =
      grind (arith, is_opened-open_packet, is_outcome-recover)

  -- However a call of `get` ends, and whatever the libraries do, it returns a text with success,
  -- or no text with failure, or throws one of four exceptions: that of `substr`, that of `unpack`,
  -- that of the JSON library, or the crash of a call through an empty pointer. Those of GpgME and
  -- of the AES functions, of fields with other types, and of a wrong alternative of the parameters
  -- do not leave it.
  pub is_outcome-bin_get :
      (b : Bin) (uri : Bytes) (no_decrypt : Bool) (s : Process P)
      → is_outcome (bin_get P b uri no_decrypt s).0 ≡ true
  unfolding bin_get code_from_dpaste_uri
  is_outcome-bin_get b uri no_decrypt s = grind (arith, passes-fetch, is_outcome-caught)
