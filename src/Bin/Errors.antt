-- ===== src/Bin/Errors.antt =====
-- What `Bin::get` of src/bin.cpp does where the address is short, the blob is not a packet, the
-- password is wrong, or nothing is to be decrypted.
use dpaste.Prelude.{
  ℕ, ◌<◌, Bool, true, false, [], none, some, Bytes, is_empty, length, take, codes, ==_iff, ◌≡◌,
  refl, ◌∙◌, arith,
}
use dpaste.Effects.{
  Exception, out_of_range, json_error, type_error, unpack_error, decrypt_error, ok, throw, follow,
  handle,
}
use dpaste.Uri.{code_from_dpaste_uri, substr}
use dpaste.Platform.{Platform, Process, response}
use dpaste.Log.{dpaste_msg}
use dpaste.Params.{aes_parameters}
use dpaste.Aes.{aes_decrypt, aes_process_cipher_text}
use dpaste.Gpg.{is_gpg_encrypted}
use dpaste.Cipher.{Cipher, aes_cipher, cipher_of_text, process_cipher_text}
use dpaste.Http.{get_request, http_get, read_body}
use dpaste.Packet.{Packet, deserialize}
use dpaste.Packet.Laws.{deserialize-unpack, deserialize-type}
use dpaste.Bin.{Bin, fetch, open_packet, recover, bin_get}
use dpaste.Bin.Published.{bin_get_lem, cipher_of_text_aes}

substr-short : (code : Bytes) (n : ℕ) → length code < n → substr code n ≡ throw out_of_range
substr-short code n h = ground arith

module _ (P : Platform) (b : Bin) where
  -- A code of fewer than eight characters: the call throws before it asks the server or the table.
  pub bin_get-short :
      (uri code : Bytes) (no_decrypt : Bool) (s : Process P)
      → code_from_dpaste_uri uri ≡ ok code
      → length code < 8
      → bin_get P b uri no_decrypt s ≡ (throw out_of_range, s)
  unfolding bin_get
  bin_get-short uri code no_decrypt s c l = rw c (rw (substr-short code 8 l))

  pub open_packet-throw :
      (blob code pwd : Bytes) (no_decrypt : Bool) (e : Exception) (s : Process P)
      → deserialize P.msgpack blob ≡ throw e
      → open_packet P blob code pwd no_decrypt s ≡ (throw e, s)
  unfolding open_packet
  open_packet-throw blob code pwd no_decrypt e s d = rw d

  -- An exception while a packet is opened reaches the handlers.
  bin_get-throw :
      (uri code pwd blob : Bytes) (no_decrypt : Bool) (e : Exception) (s t : Process P)
      → code_from_dpaste_uri uri ≡ ok code
      → substr code 8 ≡ ok pwd
      → (fetch P b (take 8 code) s).0 ≡ ok blob
      → is_empty blob ≡ false
      → open_packet P blob code pwd no_decrypt (fetch P b (take 8 code) s).1 ≡ (throw e, t)
      → bin_get P b uri no_decrypt s ≡ recover P blob e t
  bin_get-throw uri code pwd blob no_decrypt e s t c p f n o =
      bin_get_lem P b uri code pwd blob no_decrypt s c p f n ∙ rw (o, handle) refl

  -- A blob that was fetched and that msgpack cannot unpack: its exception leaves `get`.
  pub bin_get-unpack_error :
      (uri code pwd blob : Bytes) (no_decrypt : Bool) (s : Process P)
      → code_from_dpaste_uri uri ≡ ok code
      → substr code 8 ≡ ok pwd
      → (fetch P b (take 8 code) s).0 ≡ ok blob
      → is_empty blob ≡ false
      → P.msgpack.unpack blob ≡ none
      → bin_get P b uri no_decrypt s ≡ (throw unpack_error, (fetch P b (take 8 code) s).1)
  bin_get-unpack_error uri code pwd blob no_decrypt s c p f n u =
      let t = (fetch P b (take 8 code) s).1 in
      bin_get-throw uri code pwd blob no_decrypt unpack_error s t c p f n (
        open_packet-throw blob code pwd no_decrypt unpack_error t
          (deserialize-unpack P.msgpack blob u))

  -- A blob that was fetched and that msgpack unpacks to an object that is not a map, as the releases
  -- before packets left it: the blob itself is the text.
  bin_get-legacy :
      (uri code pwd blob rest : Bytes) (o : P.msgpack.Object) (no_decrypt : Bool) (s : Process P)
      → code_from_dpaste_uri uri ≡ ok code
      → substr code 8 ≡ ok pwd
      → (fetch P b (take 8 code) s).0 ≡ ok blob
      → is_empty blob ≡ false
      → P.msgpack.unpack blob ≡ some (o, rest)
      → P.msgpack.map_entries o ≡ none
      → bin_get P b uri no_decrypt s ≡ (ok (true, blob), (fetch P b (take 8 code) s).1)
  bin_get-legacy uri code pwd blob rest o no_decrypt s c p f n u m =
      let t = (fetch P b (take 8 code) s).1 in
      bin_get-throw uri code pwd blob no_decrypt type_error s t c p f n (
        open_packet-throw blob code pwd no_decrypt type_error t
          (deserialize-type P.msgpack blob rest o u m))

  -- A packet that a cipher is found for, if nothing is to be decrypted: the payload as it is, and
  -- neither the world nor the messages change after the fetch and the search for the cipher.
  pub bin_get-no_decrypt :
      (uri code pwd blob : Bytes) (p : Packet) (c : Cipher P) (s t : Process P)
      → code_from_dpaste_uri uri ≡ ok code
      → substr code 8 ≡ ok pwd
      → (fetch P b (take 8 code) s).0 ≡ ok blob
      → is_empty blob ≡ false
      → deserialize P.msgpack blob ≡ ok p
      → cipher_of_text P p.payload code (fetch P b (take 8 code) s).1 ≡ (ok (some c), t)
      → bin_get P b uri true s ≡ (ok (true, p.payload), t)
  bin_get-no_decrypt uri code pwd blob p c s t e h f n d k =
      bin_get_lem P b uri code pwd blob true s e h f n
      ∙ unfold open_packet in rw d (rw (k, follow, handle) refl)

  process_cipher_text-fail :
      (cipher_text pwd : Bytes) (s : Process P)
      → P.aes.decrypt cipher_text pwd ≡ none
      → process_cipher_text P aes_cipher cipher_text
          (some (aes_parameters (record { password = pwd })))
          s
        ≡ (
          throw (decrypt_error P.aes.decrypt_message),
          (dpaste_msg P (codes "Decrypting (aes-gcm)...") s).1,
        )
  unfolding process_cipher_text aes_process_cipher_text dpaste_msg
  process_cipher_text-fail cipher_text pwd s a = rw (a, aes_decrypt)

  open_packet-fail :
      (blob code pwd : Bytes) (p : Packet) (s : Process P)
      → length code ≡ 16
      → deserialize P.msgpack blob ≡ ok p
      → is_gpg_encrypted P p.payload ≡ false
      → P.aes.decrypt p.payload pwd ≡ none
      → open_packet P blob code pwd false s ≡ (
        throw (decrypt_error P.aes.decrypt_message),
        (dpaste_msg P (codes "Decrypting (aes-gcm)...") s).1,
      )
  unfolding open_packet
  open_packet-fail blob code pwd p s l d g a = rw d (
      rw (cipher_of_text_aes P b code p.payload s g ((==_iff _ 16).1 l), follow)
        (rw (process_cipher_text-fail p.payload pwd s a, follow) refl))

  -- A packet that is not for GPG, at an address with a password of the right size that does not
  -- open it: the failure is reported, with the message of the exception, and no text is returned.
  pub bin_get-wrong_password :
      (uri code pwd blob : Bytes) (p : Packet) (s : Process P)
      → code_from_dpaste_uri uri ≡ ok code
      → substr code 8 ≡ ok pwd
      → length code ≡ 16
      → (fetch P b (take 8 code) s).0 ≡ ok blob
      → is_empty blob ≡ false
      → deserialize P.msgpack blob ≡ ok p
      → is_gpg_encrypted P p.payload ≡ false
      → P.aes.decrypt p.payload pwd ≡ none
      → bin_get P b uri false s ≡ (
        ok (false, []),
        (dpaste_msg P P.aes.decrypt_message
            (dpaste_msg P (codes "Decrypting (aes-gcm)...") (fetch P b (take 8 code) s).1).1).1,
      )
  unfolding dpaste_msg
  bin_get-wrong_password uri code pwd blob p s e h l f n d g a =
      let t = (fetch P b (take 8 code) s).1 in
      bin_get-throw uri code pwd blob false (decrypt_error P.aes.decrypt_message) s _ e h f n
        (open_packet-fail blob code pwd p t l d g a)

  -- A server that answers with status 200 and a body that is not JSON: the exception of the parser
  -- leaves `get`, and the node, which may have the text, is not asked.
  bin_get-json_error :
      (uri code pwd body : Bytes) (no_decrypt : Bool) (s : Process P) (w : P.World)
      → code_from_dpaste_uri uri ≡ ok code
      → substr code 8 ≡ ok pwd
      → P.http.perform (get_request P b.http_client (take 8 code)) s.world ≡ (response 200 body, w)
      → P.http.parse body ≡ none
      → bin_get P b uri no_decrypt s ≡ (throw json_error, record s { world = w })
  unfolding bin_get fetch http_get
  bin_get-json_error uri code pwd body no_decrypt s w c p r j =
      rw c (rw p (rw (r, follow) (rw (j, read_body) refl)))
