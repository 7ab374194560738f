-- ===== src/Frame/Bin.antt =====
-- The calls of src/bin.cpp and below it, and the predicates that they respect.
use dpaste.Prelude.{inl, inr, Bool, true, false, Option, none, some, Bytes, arith}
use dpaste.Effects.{Result-cases, follow, Exception, give, ◌>>=◌, ◌>>◌}
use dpaste.Params.{
  Scheme, no_scheme, gpg_scheme, aes_scheme, Parameters, gpg_parameters, aes_parameters,
}
use dpaste.Platform.{Platform, Process, Do}
use dpaste.Log.{dpaste_msg}
use dpaste.Conf.{Config}
use dpaste.Aes.{aes_process_plain_text, aes_process_cipher_text}
use dpaste.Cipher.{
  Cipher, gpg_cipher, aes_cipher, cipher_of_text, cipher_of_scheme, process_plain_text,
  process_cipher_text,
}
use dpaste.Http.{HttpClient, http_get, http_put}
use dpaste.Node.{node_get, node_paste}
use dpaste.Packet.{Packet, serialize}
use dpaste.Bin.{
  Bin, Plan, fetch, publish, fresh_pin, decrypt, decrypt_params, check, check_signature,
  open_packet, recover, bin_get, make_plan, make_packet, prepare_data, bin_paste,
}
use dpaste.Bin.Published.{announced}
use dpaste.Bin.RoundTrip.{next_pin, after_pin, fresh_pin_lem}
use dpaste.Frame.{View, At, Respects, RespectsPut}
use dpaste.Frame.Gpg.{
  make_gpg-Respects, sign-Respects, verify-Respects, comment_on_first-Respects,
  gpg_process_plain_text-Respects, gpg_process_cipher_text-Respects,
}

module _ {P : Platform} {W : View P → Type 0} (H : Respects P W) where
  cipher_of_text-Respects :
      (text code : Bytes) (s : Process P) → At W s → At W (cipher_of_text P text code s).1
  unfolding cipher_of_text
  cipher_of_text-Respects text code s h = grind (arith, make_gpg-Respects)

  cipher_of_scheme-Respects :
      (scheme : Scheme) (params : Option Parameters) (s : Process P)
      → At W s
      → At W (cipher_of_scheme P scheme params s).1
  unfolding cipher_of_scheme
  cipher_of_scheme-Respects no_scheme params s h = ground arith
  cipher_of_scheme-Respects aes_scheme params s h = ground arith
  cipher_of_scheme-Respects gpg_scheme params s h = grind (arith, make_gpg-Respects)

  process_plain_text-Respects :
      (c : Cipher P) (text : Bytes) (params : Option Parameters) (s : Process P)
      → At W s
      → At W (process_plain_text P c text params s).1
  unfolding process_plain_text aes_process_plain_text dpaste_msg
  process_plain_text-Respects (gpg_cipher g) text params s h =
      gpg_process_plain_text-Respects H g text params s h
  process_plain_text-Respects aes_cipher text params s h = grind (arith, H.aes_encrypt)

  process_cipher_text-Respects :
      (c : Cipher P) (text : Bytes) (params : Option Parameters) (s : Process P)
      → At W s
      → At W (process_cipher_text P c text params s).1
  unfolding process_cipher_text aes_process_cipher_text dpaste_msg
  process_cipher_text-Respects (gpg_cipher g) text params s h =
      gpg_process_cipher_text-Respects H g text params s h
  process_cipher_text-Respects aes_cipher text params s h = ground arith

  http_get-Respects :
      (c : HttpClient) (code : Bytes) (s : Process P) → At W s → At W (http_get P c code s).1
  unfolding http_get
  http_get-Respects c code s h = grind (arith, H.ask)

  fetch-Respects : (b : Bin) (code : Bytes) (s : Process P) → At W s → At W (fetch P b code s).1
  unfolding fetch node_get
  fetch-Respects b code s h = grind (arith, http_get-Respects, H.search)

  publish-Respects :
      (b : Bin) (code blob : Bytes) (s : Process P)
      → RespectsPut P W b.http_client code
      → At W s
      → At W (publish P b code blob s).1
  unfolding publish http_put node_paste
  publish-Respects b code blob s K h = grind (arith, K.put_server, K.put_table)

  check_signature-Respects :
      (signature text : Bytes) (s : Process P)
      → At W s
      → At W (check_signature P signature text s).1
  unfolding check_signature dpaste_msg
  check_signature-Respects signature text s h =
      grind (arith, cipher_of_scheme-Respects, verify-Respects, comment_on_first-Respects)

  -- The rest of the `try` block, once the cipher is found.
  opened-Respects :
      (c : Option (Cipher P)) (p : Packet) (pwd : Bytes) (no_decrypt : Bool) (s : Process P)
      → let opened : Do P (Bool × Bytes) = (do
        text ← decrypt P c p pwd no_decrypt
        check P c p text
        give (true, text)) in
        At W s → At W (opened s).1
  opened-Respects none p pwd no_decrypt s h =
      ground (arith, check_signature-Respects p.signature p.payload s)
  opened-Respects (some c) p pwd true s h = ground arith
  opened-Respects (some c) p pwd false s h =
      ground (arith, process_cipher_text-Respects c p.payload (decrypt_params P c pwd) s)

  open_packet-Respects :
      (blob code pwd : Bytes) (no_decrypt : Bool) (s : Process P)
      → At W s
      → At W (open_packet P blob code pwd no_decrypt s).1
  unfolding open_packet
  open_packet-Respects blob code pwd no_decrypt s h =
      grind (arith, cipher_of_text-Respects, opened-Respects)

  recover-Respects :
      (blob : Bytes) (e : Exception) (s : Process P) → At W s → At W (recover P blob e s).1
  unfolding dpaste_msg
  recover-Respects blob e s h = ground arith

  -- `get`, whatever it returns or throws.
  pub bin_get-Respects :
      (b : Bin) (uri : Bytes) (no_decrypt : Bool) (s : Process P)
      → At W s
      → At W (bin_get P b uri no_decrypt s).1
  unfolding bin_get
  bin_get-Respects b uri no_decrypt s h =
      grind (arith, fetch-Respects, open_packet-Respects, recover-Respects)

  fresh_pin-Respects : (s : Process P) → At W s → At W (fresh_pin P s).1
  unfolding fresh_pin
  fresh_pin-Respects s h = H.draw s.world s.statics s.out s.cipher_initialized s.gpg_initialized h

  make_plan-Respects :
      (conf : Config) (params : Option Parameters) (s : Process P)
      → At W s
      → At W (make_plan P conf params s).1
  unfolding make_plan
  make_plan-Respects conf none s h = ground arith
  make_plan-Respects conf (some (gpg_parameters p)) s h = ground arith
  make_plan-Respects conf (some (aes_parameters p)) s h = ground (arith, fresh_pin-Respects s)

  make_packet-Respects :
      (c : Option (Cipher P)) (text : Bytes) (plan : Plan P) (s : Process P)
      → At W s
      → At W (make_packet P c text plan s).1
  unfolding make_packet dpaste_msg
  make_packet-Respects none text plan s h = ground arith
  make_packet-Respects (some (gpg_cipher g)) text plan s h =
      grind (arith, process_plain_text-Respects, sign-Respects)
  make_packet-Respects (some aes_cipher) text plan s h = grind (arith, process_plain_text-Respects)

  prepare_data-Respects :
      (b : Bin) (text : Bytes) (params : Option Parameters) (s : Process P)
      → At W s
      → At W (prepare_data P b text params s).1
  unfolding prepare_data
  prepare_data-Respects b text params s h =
      grind (arith, make_plan-Respects, cipher_of_scheme-Respects, make_packet-Respects)

  -- `paste`, if the value is put under a code that spares the predicate.
  pub bin_paste-Respects :
      (b : Bin) (text : Bytes) (params : Option Parameters) (s : Process P)
      → RespectsPut P W b.http_client (next_pin P b s)
      → At W s
      → At W (bin_paste P b text params s).1
  unfolding bin_paste dpaste_msg
  bin_paste-Respects b text params s K h =
      let ready =
        prepare_data-Respects b text params (after_pin P b s)
          (H.draw s.world s.statics s.out s.cipher_initialized s.gpg_initialized h) in
      elim (Result-cases (prepare_data P b text params (after_pin P b s)).0) [
        | inr (e, r) ↦ rw (fresh_pin_lem P b s) (rw (r, follow) ready)
        | inl ((p, pwd), r) ↦
            let t = announced P b (prepare_data P b text params (after_pin P b s)).1 in
            let put = publish-Respects b (next_pin P b s) (serialize P.msgpack p) t K ready in
            elim (Result-cases (publish P b (next_pin P b s) (serialize P.msgpack p) t).0) [
              | inr (e, q) ↦ rw (fresh_pin_lem P b s) (rw (r, follow) (rw (q, follow) put))
              | inl (success, q) ↦ rw (fresh_pin_lem P b s) (rw (r, follow) (rw (q, follow) put))
            ]
      ]
