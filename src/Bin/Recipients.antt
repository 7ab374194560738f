-- ===== src/Bin/Recipients.antt =====
-- `Bin::prepare_data` of src/bin.cpp with the parameters of GPG: what is encrypted, and what is not.
use dpaste.Prelude.{
  Bool, false, not, ◌&&◌, List, [], ◌∷◌, ◌++◌, some, Bytes, codes, is_empty, ◌≡◌, refl, sym, ap,
  ◌∙◌, ◌⊎◌, inl, inr, arith, Bool-cases, Option-cases, Option, none, if◌then◌else◌,
}
use dpaste.Effects.{ok-inj, ok, Result-cases, follow}
use dpaste.Params.{GpgParameters, gpg_parameters}
use dpaste.Platform.{Platform, Process}
use dpaste.Log.{dpaste_msg}
use dpaste.Gpg.{Gpg, on_error, sign, encrypt, all_recipients, gpg_process_plain_text}
use dpaste.Gpg.Data.{Reads, data_to_vector-all}
use dpaste.Gpg.Message.{
  readers, Found, found_all, found, IsMessageTo, all_recipients_none, all_recipients-readers,
  encrypt_with-IsMessageTo,
}
use dpaste.Cipher.{gpg_cipher, process_plain_text}
use dpaste.Packet.{Packet}
use dpaste.Bin.Made.{IsMade, signer_names, gpg_plan, prepare_gpg}
use dpaste.Bin.{conf_at, Bin, make_packet, prepare_data}

module _ (P : Platform) where
  encrypts_nothing :
      (g : Gpg P) (text : Bytes) (gp : GpgParameters) (t : Process P)
      → gp.recipients ≡ []
      → gpg_process_plain_text P g text (some (gpg_parameters gp)) t ≡ (ok [], t)
  unfolding gpg_process_plain_text
  encrypts_nothing g text gp t h =
      rw (all_recipients_none P g gp h, gpg_process_plain_text, follow) refl

  -- The signature is empty, or one that GpgME made of the text with no error.
  abbrev pub IsSignature : Bytes → Bytes → Type 0
  IsSignature text signature =
      (signature ≡ [])
      ⊎ ((keys : List P.gpgme.Key) × (w : P.World) × ((P.gpgme.sign keys text w).0.error ≡ none)
          × (signature ≡ (P.gpgme.sign keys text w).0.signature))

  sign-IsSignature :
      (g : Gpg P) (text signature : Bytes) (s : Process P)
      → Reads P
      → (sign P g text s).0 ≡ ok signature
      → IsSignature text signature
  unfolding sign
  sign-IsSignature g text signature s R h = elim (Option-cases g.ctx) [
    | inl e ↦ inl (sym (ok-inj (rw (e, sign) at h)))
    | inr ([], e) ↦ inl (sym (ok-inj (rw (e, sign) at h)))
    | inr (k ∷ ks, e) ↦
        let h1 = rw (e, sign) at h in
        let res = (P.gpgme.sign (k ∷ ks) text s.world).0 in
        elim (Option-cases res.error) [
          | inr (x, f) ↦ cc (rw (f, on_error, follow) at h1)
          | inl f ↦
              let e2 = ok-inj (rw (f, on_error, follow) at h1) in
              inr (k ∷ ks, s.world, f, sym e2 ∙ data_to_vector-all P R res.signature)
        ]
  ]

  make_packet-clear :
      (g : Gpg P) (text keyid : Bytes) (gp : GpgParameters) (p : Packet) (t : Process P)
      → Reads P
      → gp.recipients ≡ []
      → (make_packet P (some (gpg_cipher g)) text (gpg_plan P keyid gp) t).0 ≡ ok p
      → (p.payload ≡ text) × IsSignature text p.signature
  unfolding make_packet process_plain_text dpaste_msg
  make_packet-clear g text keyid gp p t R none_given h =
      let h1 = rw (encrypts_nothing g text gp t none_given, make_packet, follow) at h in
      elim (Bool-cases (gp.sign && not (is_empty keyid))) [
        | inr f ↦
            let e = ok-inj (rw f at h1) in
            (ap (λ p. p.payload) (sym e), inl (ap (λ p. p.signature) (sym e)))
        | inl f ↦
            let h2 = rw f at h1 in
            let u = (dpaste_msg P (codes "Signing data...") t).1 in
            elim (Result-cases (sign P g text u).0) [
              | inr (x, k) ↦ cc (rw (k, follow) at h2)
              | inl (signature, k) ↦
                  let e = ok-inj (rw (k, follow) at h2) in
                  (
                    ap (λ p. p.payload) (sym e),
                    rw (ap (λ p. p.signature) (sym e)) (sign-IsSignature g text signature u R k),
                  )
            ]
      ]

  is_empty-append : (xs ys : List Bytes) → is_empty xs ≡ false → is_empty (xs ++ ys) ≡ false
  is_empty-append [] ys h = cc
  is_empty-append (x ∷ xs) ys h = refl

  never_unsigned : (sign k : Bool) → ((sign && not k) && k) ≡ false
  never_unsigned sign k = ground arith

  -- There are as many signing keys as there are names.
  is_empty-Found :
      (signer : Bytes) (w : P.World) (signing : List P.gpgme.Key)
      → Found P w (signer_names signer) signing
      → is_empty signing ≡ is_empty signer
  is_empty-Found [] w _ found_all = refl
  is_empty-Found (c ∷ signer) w _ (found e f) = refl

  message_full :
      (signers : Option (List P.gpgme.Key)) (names : List Bytes) (text c : Bytes)
      → IsMessageTo P signers names text c
      → is_empty c ≡ false
  message_full signers names text c (keys, w, all_found, none_wrong, e) = rw e (full _)
    where
      full : (m : Bytes) → is_empty (m ++ 0 ∷ []) ≡ false
      full [] = refl
      full (x ∷ m) = refl

  -- A message to the readers, signed with the key that was found for the name of the sender if
  -- there is one and the text is to be signed, and else not signed.
  abbrev pub IsSealedTo : Bytes → GpgParameters → Bytes → Bytes → Type 0
  IsSealedTo keyid gp text c =
      (signing : List P.gpgme.Key) × (w : P.World) × Found P w (signer_names keyid) signing
      × IsMessageTo P (if gp.sign && not (is_empty keyid) then some signing else none)
          (readers keyid gp) (text ++ 0 ∷ []) c

  encrypts-IsSealedTo :
      (g : Gpg P) (text c keyid : Bytes) (gp : GpgParameters) (t : Process P)
      → Reads P
      → IsMade P keyid g
      → is_empty gp.recipients ≡ false
      → (gpg_process_plain_text P g text (some (gpg_parameters gp)) t).0 ≡ ok c
      → IsSealedTo keyid gp text c
  unfolding gpg_process_plain_text encrypt dpaste_msg
  encrypts-IsSealedTo g text c keyid gp t R (signing, w, made, named, own) some_given h =
      let all = all_recipients-readers P g gp some_given in
      let some_left : is_empty (all_recipients P g gp) ≡ false =
        ap is_empty all ∙ is_empty-append gp.recipients _ some_given in
      let h1 = rw (some_left, gpg_process_plain_text, follow) at h in
      let h2 = rw (made, encrypt) at h1 in
      let room : ((gp.sign && not (is_empty g.signer_key)) && is_empty signing) ≡ false =
        rw (is_empty-Found keyid w signing own ∙ ap is_empty (sym named))
          (never_unsigned gp.sign (is_empty g.signer_key)) in
      let m =
        encrypt_with-IsMessageTo P signing (readers g.signer_key gp) text c
          (gp.sign && not (is_empty g.signer_key)) _ R (rw (room, all) at h2) in
      (signing, w, own, rw named at m)

  make_packet-IsSealedTo :
      (g : Gpg P) (text keyid : Bytes) (gp : GpgParameters) (p : Packet) (t : Process P)
      → Reads P
      → IsMade P keyid g
      → is_empty gp.recipients ≡ false
      → (make_packet P (some (gpg_cipher g)) text (gpg_plan P keyid gp) t).0 ≡ ok p
      → IsSealedTo keyid gp text p.payload × (p.signature ≡ [])
  unfolding make_packet process_plain_text
  make_packet-IsSealedTo g text keyid gp p t R made some_given h =
      elim (Result-cases (gpg_process_plain_text P g text (some (gpg_parameters gp)) t).0) [
        | inr (x, k) ↦ cc (rw (k, make_packet, follow) at h)
        | inl (c, k) ↦
            let h1 = rw (k, make_packet, follow) at h in
            let m = encrypts-IsSealedTo g text c keyid gp t R made some_given k in
            let e = ok-inj (rw (message_full _ _ _ c m.3) at h1) in
            (rw (ap (λ p. p.payload) (sym e)) m, ap (λ p. p.signature) (sym e))
      ]

  -- With parameters of GPG that name a recipient, if the preparation succeeds and data objects are
  -- read as documented, the packet holds a message of the text and a null byte that is encrypted
  -- with the keys found for the recipients, one for each, and with that of the configured name if
  -- --self-recipient is given, and that is signed with the latter if signing is asked for. If no
  -- name is configured, the message is neither for the sender nor signed. There is no signature
  -- beside the message, and no password.
  pub prepare_data-IsSealedTo :
      (b : Bin) (text pwd keyid : Bytes) (gp : GpgParameters) (p : Packet) (s : Process P)
      → Reads P
      → conf_at b.conf (codes "pgp_key_id") ≡ ok keyid
      → is_empty gp.recipients ≡ false
      → (prepare_data P b text (some (gpg_parameters gp)) s).0 ≡ ok (p, pwd)
      → IsSealedTo keyid gp text p.payload × (p.signature ≡ []) × (pwd ≡ [])
  prepare_data-IsSealedTo b text pwd keyid gp p s R configured some_given h =
      let (id, g, t, found_id, made, m, e) = prepare_gpg P b text pwd gp p s h in
      let same : id ≡ keyid = ok-inj (sym found_id ∙ configured) in
      let (message, bare) =
        make_packet-IsSealedTo g text keyid gp p t R (rw same at made) some_given (rw same at m) in
      (message, bare, e)

  -- With parameters of GPG that name no recipient, if the preparation succeeds and data objects
  -- are read as documented, nothing is encrypted: the packet holds the text itself, with a
  -- signature of it or with none, whether or not the sender is to be a recipient.
  pub prepare_data-clear :
      (b : Bin) (text pwd : Bytes) (gp : GpgParameters) (p : Packet) (s : Process P)
      → Reads P
      → gp.recipients ≡ []
      → (prepare_data P b text (some (gpg_parameters gp)) s).0 ≡ ok (p, pwd)
      → (p.payload ≡ text) × IsSignature text p.signature × (pwd ≡ [])
  prepare_data-clear b text pwd gp p s R none_given h =
      let (keyid, g, t, _, made, m, e) = prepare_gpg P b text pwd gp p s h in
      let (clear, signature) = make_packet-clear g text keyid gp p t R none_given m in
      (clear, signature, e)
