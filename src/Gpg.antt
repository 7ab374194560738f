-- ===== src/Gpg.antt =====
-- src/gpgcrypto.h and src/gpgcrypto.cpp, over the library GpgME.
pub mod Data
pub mod Message
pub mod RoundTrip
use dpaste.Prelude.{
  ℕ, zero, suc, Bool, true, false, not, ◌&&◌, List, [], ◌∷◌, ◌++◌, Option, none, some, Bytes, codes,
  is_empty, if◌then◌else◌, length, take, drop, ◌==◌,
}
use dpaste.Effects.{
  gpgme_error, null_pointer, bad_variant_access, Result, ok, throw, ◌>>=◌, ◌>>◌, lift, fail, give,
  when,
}
use dpaste.Params.{Parameters, GpgParameters, get_gpg, aes_parameters}
use dpaste.Platform.{Platform, Do, on_world, see_world, key, no_key, Signature}
use dpaste.Log.{dpaste_msg}

abbrev pub buflen : ℕ
buflen = 1024

-- The value of an optional error that is there.
abbrev pub on_error : {S : Type 0} → Option Bytes → Bytes → S → Result (Unit {0}) × S
on_error none message s = (ok tt, s)
on_error (some error) message s = (throw (gpgme_error error message), s)

module _ (P : Platform) where
  open P.gpgme use {Key, find_key, fingerprint, read_size}

  -- A `GPG` object: the signing keys of its context, if it has one, and the signer.
  pub record Gpg : Type 0 where
    pub ctx : Option (List Key)
    pub signer_key : Bytes

  -- The loop of `dataToVector`: a call of `Data::read` gives up to 1024 of the unread bytes.
  unfoldable pub read_loop : ℕ → Bytes → Bytes → Bytes
  read_loop zero unread v = v
  read_loop (suc fuel) unread v =
      let bytes = read_size buflen unread in
      let rest = read_loop fuel (drop bytes unread) (v ++ take bytes unread) in
      if bytes == 0 then v else rest

  unfoldable pub data_to_vector : Bytes → Bytes
  unfolding read_loop
  data_to_vector d = read_loop (suc (length d)) d []

  -- `getKey`, where there is a context.
  unfoldable pub get_key : Bytes → Do P Key
  get_key key_id = do
    found ← see_world P (find_key key_id)
    elim found [
      | key k ↦ give k
      | no_key e ↦ fail (gpgme_error e (codes "Failed to retrieve key with ID " ++ key_id))
    ]

  unfoldable pub get_keys : List Bytes → Do P (List Key)
  unfolding get_key
  get_keys [] = give []
  get_keys (r ∷ rs) = do k ← get_key r; ks ← get_keys rs; give (k ∷ ks)

  -- The constructor, which calls the context without a test for an empty pointer.
  unfoldable pub make_gpg : Bytes → Do P Gpg
  make_gpg signer = do
    created ← see_world P P.gpgme.has_context
    elim created [
      | false ↦ fail null_pointer
      | true ↦ elim (is_empty signer) [
        | true ↦ give (record { ctx = some []; signer_key = signer })
        | false ↦ do k ← get_key signer; give (record { ctx = some (k ∷ []); signer_key = signer })
      ]
    ]

  -- `GPG::init`
  unfoldable pub gpg_init : Do P (Unit {0})
  gpg_init s = elim s.gpg_initialized [
    | true ↦ (ok tt, s)
    | false ↦ elim (P.gpgme.check_engine s.world) [
      | some e ↦ (throw (gpgme_error e (codes "Failed to initialize OpenPGP engine")), s)
      | none ↦ (ok tt, record s { gpg_initialized = true })
    ]
  ]

  abbrev pub front : List Bytes → Bytes
  front [] = []
  front (r ∷ rs) = r

  abbrev pub signing_fingerprint : List Key → Bytes
  signing_fingerprint [] = []
  signing_fingerprint (k ∷ ks) = fingerprint k

  -- The part of `encrypt` behind its guard.
  unfoldable pub encrypt_with : List Key → List Bytes → Bytes → Bool → Do P Bytes
  unfolding get_keys data_to_vector
  encrypt_with signing_keys recipients plain_text sign = do
    keys ← get_keys recipients
    let signers = if sign then some signing_keys else none
    res ← on_world P (P.gpgme.encrypt signers keys (plain_text ++ 0 ∷ []))
    on_error res.enc_error (codes "Failed to encrypt with key of ID " ++ front recipients)
    on_error res.sign_error
        (codes "Failed to sign with key of ID " ++ signing_fingerprint signing_keys)
    give (data_to_vector (res.cipher_text ++ 0 ∷ []))

  unfoldable pub encrypt : Gpg → List Bytes → Bytes → Bool → Do P Bytes
  encrypt g recipients plain_text sign = elim g.ctx [
    | none ↦ give []
    | some keys ↦ elim (sign && is_empty keys) [
      | true ↦ give []
      | false ↦ encrypt_with keys recipients plain_text sign
    ]
  ]

  -- The plain text, and the signatures of the verification result.
  unfoldable pub decrypt_and_verify : Gpg → Bytes → Do P (Bytes × List Signature)
  unfolding data_to_vector
  decrypt_and_verify g cipher_text = elim g.ctx [
    | none ↦ give ([], [])
    | some keys ↦ do
      res ← on_world P (P.gpgme.decrypt_verify cipher_text)
      on_error res.dec_error []
      on_error res.verify_error []
      give (data_to_vector res.plain_text, res.signatures)
  ]

  unfoldable pub sign : Gpg → Bytes → Do P Bytes
  unfolding data_to_vector
  sign g plain_text = elim g.ctx [
    | none ↦ give []
    | some [] ↦ give []
    | some (k ∷ ks) ↦ do
      res ← on_world P (P.gpgme.sign (k ∷ ks) plain_text)
      on_error res.error (codes "Failed to sign with key of ID " ++ fingerprint k)
      give (data_to_vector res.signature)
  ]

  -- The signatures of the result.
  unfoldable pub verify : Gpg → Bytes → Bytes → Do P (List Signature)
  verify g signature plain_text = elim g.ctx [
    | none ↦ give []
    | some keys ↦ do
      res ← on_world P (P.gpgme.verify signature plain_text)
      on_error res.error []
      give res.signatures
  ]

  unfoldable pub comment_on_signature : Signature → Do P (Unit {0})
  comment_on_signature sig =
      when sig.valid (dpaste_msg P (codes "Valid signature from key with ID " ++ sig.fingerprint))

  -- `if (numSignatures() > 0) comment_on_signature(signature(0))`
  unfoldable pub comment_on_first : List Signature → Do P (Unit {0})
  unfolding comment_on_signature
  comment_on_first [] = give tt
  comment_on_first (sig ∷ _) = comment_on_signature sig

  -- The recipients that `processPlainText` encrypts for.
  unfoldable pub all_recipients : Gpg → GpgParameters → List Bytes
  all_recipients g p =
      if not (is_empty p.recipients) && (p.self_recipient && not (is_empty g.signer_key))
      then p.recipients ++ g.signer_key ∷ []
      else p.recipients

  unfoldable pub gpg_process_plain_text : Gpg → Bytes → Option Parameters → Do P Bytes
  gpg_process_plain_text g plain_text none = give []
  gpg_process_plain_text g plain_text (some params) = do
    p ← lift (get_gpg params)
    let to_sign = p.sign && not (is_empty g.signer_key)
    elim (is_empty (all_recipients g p)) [
      | true ↦ give []
      | false ↦ do
        dpaste_msg P (
            codes "Encrypting (gpg)"
            ++ ((if to_sign then codes " and signing " else []) ++ codes "..."))
        encrypt g (all_recipients g p) plain_text to_sign
    ]

  -- `params ? std::get<GPGParameters>(*params) : GPGParameters {}`, whose value is not used.
  abbrev check_gpg : Option Parameters → Result (Unit {0})
  check_gpg (some (aes_parameters p)) = throw bad_variant_access
  check_gpg _ = ok tt

  unfoldable pub gpg_process_cipher_text : Gpg → Bytes → Option Parameters → Do P Bytes
  gpg_process_cipher_text g cipher_text params = do
    lift (check_gpg params)
    dpaste_msg P (codes "Decrypting (gpg)...")
    res ← decrypt_and_verify g cipher_text
    dpaste_msg P (codes "Success!")
    comment_on_first res.1
    give res.0

  -- `isGPGencrypted`
  unfoldable pub is_gpg_encrypted : Bytes → Bool
  is_gpg_encrypted d = P.gpgme.is_pgp_encrypted d
