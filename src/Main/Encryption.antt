-- ===== src/Main/Encryption.antt =====
-- From the command line of src/main.cpp to the packet of src/bin.cpp: which options encrypt.
use dpaste.Prelude.{
  Bool, true, false, not, ◌&&◌, ◌||◌, List, [], ◌∷◌, Option, none, some, Bytes, is_empty,
  if◌then◌else◌, ◌≡◌, refl, sym, ap, ◌∙◌, ◌⊎◌, inl, inr, Bool-cases, codes,
}
use dpaste.Effects.{ok, ok-inj}
use dpaste.Params.{
  no_scheme, Parameters, gpg_parameters, aes_parameters, GpgParameters, AesParameters,
}
use dpaste.Args.{Opt, no_args, parse_opts, params_from_args}
use dpaste.Args.Laws.{Known, given, arguments, parse_opts-Known}
use dpaste.Platform.{Platform, Process}
use dpaste.Gpg.Data.{Reads}
use dpaste.Packet.{Packet}
use dpaste.Bin.{conf_at, Bin, prepare_data}
use dpaste.Bin.Published.{prepare_plain}
use dpaste.Bin.Secret.{AesFull, prepare_aes}
use dpaste.Bin.Recipients.{IsSealedTo, prepare_data-IsSealedTo, prepare_data-clear}

-- The options ask for AES, or for GPG with a recipient.
abbrev pub encrypts : List Opt → Bool
encrypts os = given b'3' os false || (given b'4' os false && not (is_empty (arguments b'r' os)))

not_empty : (rs : List Bytes) → not (is_empty rs) ≡ true → is_empty rs ≡ false
not_empty [] h = cc
not_empty (r ∷ rs) h = refl

empty : (rs : List Bytes) → not (is_empty rs) ≡ false → rs ≡ []
empty [] h = refl
empty (r ∷ rs) h = cc

module _ (P : Platform) (b : Bin) where
  abbrev pub params_of : List Opt → Option Parameters
  params_of os = params_from_args P.garbage (parse_opts os no_args)

  abbrev gpg_params : List Opt → GpgParameters
  gpg_params os = record {
    key_id = [];
    recipients = arguments b'r' os;
    self_recipient = given b'2' os false;
    sign = given b's' os false;
  }

  -- A text that the AES functions encrypted with the password, or a message for those that the
  -- options name, signed if they ask for it.
  abbrev pub IsSealed : List Opt → Bytes → Bytes → Bytes → Bytes → Type 0
  IsSealed os keyid text pwd c =
      ((w : P.World) × (c ≡ (P.aes.encrypt text pwd w).0))
      ⊎ IsSealedTo P keyid (gpg_params os) text c

  abbrev sign_params : Bool → GpgParameters
  sign_params sign = record {
    key_id = [];
    recipients = [];
    self_recipient = P.garbage.flag;
    sign = sign;
  }

  -- The parameters that known options give.
  params_of-Known :
      (os : List Opt)
      → Known os
      → params_of os ≡ (
          if given b'3' os false
          then some (aes_parameters (record { password = [] }))
          else if given b'4' os false
          then some (gpg_parameters (gpg_params os))
          else if given b's' os false
          then some (gpg_parameters (sign_params (given b's' os false)))
          else none)
  unfolding params_from_args
  params_of-Known os k = rw (parse_opts-Known os no_args k) refl

  -- If known options ask for AES, or for GPG with a recipient, if the preparation succeeds, data
  -- objects are read as documented and AES never gives an empty cipher text, then the packet holds
  -- the text encrypted with the password that is returned, or encrypted for all the recipients that
  -- the options name and signed as they ask for, whatever other known options there are.
  pub prepare_data-IsSealed :
      (os : List Opt) (text pwd keyid : Bytes) (p : Packet) (s : Process P)
      → Reads P
      → AesFull P
      → conf_at b.conf (codes "pgp_key_id") ≡ ok keyid
      → Known os
      → encrypts os ≡ true
      → (prepare_data P b text (params_of os) s).0 ≡ ok (p, pwd)
      → IsSealed os keyid text pwd p.payload
  unfolding params_from_args
  prepare_data-IsSealed os text pwd keyid p s R A configured k e h =
      let h1 = rw (params_of-Known os k) at h in
      elim (Bool-cases (given b'3' os false)) [
        | inl aes ↦
            let given_none : AesParameters = record { password = [] } in
            let made = ap (λ r. r.0) (prepare_aes P b text given_none s A) in
            let q = ok-inj (sym (rw aes at h1) ∙ made) in
            inl (
              s.world,
              ap (λ r. r.0.payload) q
                  ∙ ap (λ key. (P.aes.encrypt text key s.world).0) (sym (ap (λ r. r.1) q)),
            )
        | inr f ↦ elim (Bool-cases (given b'4' os false)) [
          | inl g ↦
              let some_given = not_empty (arguments b'r' os) (rw (f, g) at e) in
              inr
                (prepare_data-IsSealedTo P b text pwd keyid (gpg_params os) p s R configured
                  some_given (rw (f, g) at h1)).0
          | inr g ↦ cc (rw (f, g) at e)
        ]
      ]

  -- If known options ask neither for AES nor for GPG with a recipient, if the preparation
  -- succeeds, the scheme that is never set reads as none, and data objects are read as documented,
  -- then the packet holds the text itself, even if there are recipients: they count only with
  -- --gpg-encrypt.
  pub prepare_data_unsealed :
      (os : List Opt) (text pwd : Bytes) (p : Packet) (s : Process P)
      → Reads P
      → P.garbage.scheme ≡ no_scheme
      → Known os
      → encrypts os ≡ false
      → (prepare_data P b text (params_of os) s).0 ≡ ok (p, pwd)
      → p.payload ≡ text
  prepare_data_unsealed os text pwd p s R scheme k e h =
      let h1 = rw (params_of-Known os k) at h in
      elim (Bool-cases (given b'3' os false)) [
        | inl aes ↦ cc (rw aes at e)
        | inr f ↦ elim (Bool-cases (given b'4' os false)) [
          | inl g ↦
              (prepare_data-clear P b text pwd (gpg_params os) p s R
                (empty (arguments b'r' os) (rw (f, g) at e)) (rw (f, g) at h1)).0
          | inr g ↦ elim (Bool-cases (given b's' os false)) [
            | inl sign ↦
                (prepare_data-clear P b text pwd (sign_params true) p s R refl
                  (rw (f, g, sign) at h1)).0
            | inr sign ↦
                let q =
                  ok-inj (
                    sym (rw (f, g, sign) at h1)
                    ∙ ap (λ r. r.0) (prepare_plain P b text s scheme)) in
                ap (λ r. r.0.payload) q
          ]
        ]
      ]
