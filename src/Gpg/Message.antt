-- ===== src/Gpg/Message.antt =====
-- What `GPG::encrypt` and `GPG::processPlainText` of src/gpgcrypto.cpp make: for whom a message is
-- encrypted, and who signs it.
use mathlib.Core.List.{Memᴰ}
use mathlib.Core.List.Memᴰ.{head, tail}
use dpaste.Prelude.{
  true, false, [], ◌∷◌, ◌++◌, List, Bool, not, ◌&&◌, is_empty, if◌then◌else◌, Option, none, some,
  Bytes, append-nil, ◌≡◌, ◌≢◌, refl, sym, ap, ◌∙◌, ◌⊎◌, inl, inr, Bool-cases, Option-cases,
}
use dpaste.Effects.{ok, ok-inj, Result-cases, follow}
use dpaste.Params.{GpgParameters, gpg_parameters}
use dpaste.Platform.{Platform, Process, Lookup, key, no_key}
use dpaste.Log.{dpaste_msg}
use dpaste.Gpg.{
  Gpg, on_error, get_key, get_keys, encrypt_with, encrypt, all_recipients, gpg_process_plain_text,
}
use dpaste.Gpg.Data.{Reads, data_to_vector-all}

-- Those who are to read: the recipients, and the sender who wants to be one and has a key.
abbrev pub readers : Bytes → GpgParameters → List Bytes
readers signer gp =
    gp.recipients ++ (if gp.self_recipient && not (is_empty signer) then signer ∷ [] else [])

Lookup-cases :
    {K : Type 0} → (l : Lookup K) → ((k : K) × (l ≡ key k)) ⊎ ((e : Bytes) × (l ≡ no_key e))
Lookup-cases (key k) = inl (k, refl)
Lookup-cases (no_key e) = inr (e, refl)

empty-nil : (names : List Bytes) → is_empty names ≡ true → names ≡ []
empty-nil [] h = refl
empty-nil (name ∷ names) h = cc

module _ (P : Platform) where
  -- The keys of these names, one for each.
  pub data Found (w : P.World) : List Bytes → List P.gpgme.Key → Type 0 where
    found_all : Found w [] []
    found :
        {name : Bytes} {k : P.gpgme.Key} {names : List Bytes} {ks : List P.gpgme.Key}
        → P.gpgme.find_key name w ≡ key k
        → Found w names ks
        → Found w (name ∷ names) (k ∷ ks)

  -- The bytes are a message for this text, and the null byte.
  abbrev pub IsMessage : Bytes → Bytes → Type 0
  IsMessage text c =
      (signers : Option (List P.gpgme.Key)) × (keys : List P.gpgme.Key) × (w : P.World)
      × ((P.gpgme.encrypt signers keys text w).0.enc_error ≡ none)
      × (c ≡ (P.gpgme.encrypt signers keys text w).0.cipher_text ++ 0 ∷ [])

  -- They are one that these signers sign, encrypted with the keys of these names.
  abbrev pub IsMessageTo : Option (List P.gpgme.Key) → List Bytes → Bytes → Bytes → Type 0
  IsMessageTo signers names text c =
      (keys : List P.gpgme.Key) × (w : P.World) × Found w names keys
      × ((P.gpgme.encrypt signers keys text w).0.enc_error ≡ none)
      × (c ≡ (P.gpgme.encrypt signers keys text w).0.cipher_text ++ 0 ∷ [])

  pub IsMessageTo-IsMessage :
      (signers : Option (List P.gpgme.Key)) (names : List Bytes) (text c : Bytes)
      → IsMessageTo signers names text c
      → IsMessage text c
  IsMessageTo-IsMessage signers names text c (keys, w, _, e, m) = (signers, keys, w, e, m)

  -- A name that was found has its key among them.
  pub Found-key :
      (w : P.World) (names : List Bytes) (keys : List P.gpgme.Key) (name : Bytes)
      → Found w names keys
      → Memᴰ name names
      → (k : P.gpgme.Key) × Memᴰ k keys × (P.gpgme.find_key name w ≡ key k)
  Found-key w _ _ name found_all m = elim m [ ]
  Found-key w _ _ name (found {k = k} e f) (head same) = (k, head refl, rw same e)
  Found-key w _ _ name (found {names = names} {ks = ks} e f) (tail m) =
      let (k, among, q) = Found-key w names ks name f m in (k, tail among, q)

  pub get_key-ok :
      (name : Bytes) (k : P.gpgme.Key) (s : Process P)
      → (get_key P name s).0 ≡ ok k
      → (P.gpgme.find_key name s.world ≡ key k) × ((get_key P name s).1.world ≡ s.world)
  unfolding get_key
  get_key-ok name k s h = elim (Lookup-cases (P.gpgme.find_key name s.world)) [
    | inl (found_key, e) ↦ (e ∙ ap key (ok-inj (rw (e, follow) at h)), rw (e, follow) refl)
    | inr (x, e) ↦ cc (rw (e, follow) at h)
  ]

  get_keys-Found :
      (names : List Bytes) (keys : List P.gpgme.Key) (s : Process P)
      → (get_keys P names s).0 ≡ ok keys
      → Found s.world names keys × ((get_keys P names s).1.world ≡ s.world)
  unfolding get_keys
  get_keys-Found [] keys s h = (rw (sym (ok-inj h)) found_all, refl)
  get_keys-Found (name ∷ names) keys s h = elim (Result-cases (get_key P name s).0) [
    | inr (x, e) ↦ cc (rw (e, get_keys, follow) at h)
    | inl (k, e) ↦
        let h1 = rw (e, get_keys, follow) at h in
        let t = (get_key P name s).1 in
        let (q, same) = get_key-ok name k s e in
        elim (Result-cases (get_keys P names t).0) [
          | inr (x, f) ↦ cc (rw (f, follow) at h1)
          | inl (ks, f) ↦
              let (r, still) = get_keys-Found names ks t f in
              let more = rw same at r in
              (
                rw (sym (ok-inj (rw (f, follow) at h1))) (found q more),
                rw (e, get_keys, follow) (rw (f, follow) (still ∙ same)),
              )
        ]
  ]

  abbrev signers_of : Bool → List P.gpgme.Key → Option (List P.gpgme.Key)
  signers_of sign signing = if sign then some signing else none

  pub encrypt_with-IsMessageTo :
      (signing : List P.gpgme.Key) (recipients : List Bytes) (text c : Bytes) (sign : Bool)
      (s : Process P)
      → Reads P
      → (encrypt_with P signing recipients text sign s).0 ≡ ok c
      → IsMessageTo (if sign then some signing else none) recipients (text ++ 0 ∷ []) c
  unfolding encrypt_with
  encrypt_with-IsMessageTo signing recipients text c sign s R h =
      elim (Result-cases (get_keys P recipients s).0) [
        | inr (e, r) ↦ cc (rw (r, encrypt_with, follow) at h)
        | inl (keys, r) ↦
            let (all_found, same) = get_keys-Found recipients keys s r in
            let w = (get_keys P recipients s).1.world in
            let res = (P.gpgme.encrypt (signers_of sign signing) keys (text ++ 0 ∷ []) w).0 in
            let h1 = rw (r, encrypt_with, follow) at h in
            elim (Option-cases res.enc_error) [
              | inr (error, e) ↦ cc (rw (e, on_error, follow) at h1)
              | inl e ↦
                  let h2 = rw (e, on_error, follow) at h1 in
                  elim (Option-cases res.sign_error) [
                    | inr (error, f) ↦ cc (rw (f, on_error, follow) at h2)
                    | inl f ↦
                        let h3 = rw (f, on_error, follow) at h2 in
                        let read = data_to_vector-all P R (res.cipher_text ++ 0 ∷ []) in
                        (keys, w, rw same all_found, e, cc (h3, read))
                  ]
            ]
      ]

  encrypt-IsMessageTo :
      (g : Gpg P) (recipients : List Bytes) (text c : Bytes) (sign : Bool) (s : Process P)
      → Reads P
      → (encrypt P g recipients text sign s).0 ≡ ok c
      → c ≢ []
      → (signers : Option (List P.gpgme.Key)) × IsMessageTo signers recipients (text ++ 0 ∷ []) c
  unfolding encrypt
  encrypt-IsMessageTo g recipients text c sign s R h ne = elim (Option-cases g.ctx) [
    | inl e ↦ absurd (ne (cc (rw (e, encrypt) at h)))
    | inr (keys, e) ↦
        let h1 = rw (e, encrypt) at h in
        elim (Bool-cases (sign && is_empty keys)) [
          | inl f ↦ absurd (ne (cc (rw f at h1)))
          | inr f ↦ (
            signers_of sign keys,
            encrypt_with-IsMessageTo keys recipients text c sign s R (rw f at h1),
          )
        ]
  ]

  pub all_recipients_none :
      (g : Gpg P) (gp : GpgParameters) → gp.recipients ≡ [] → all_recipients P g gp ≡ []
  unfolding all_recipients
  all_recipients_none g gp h = rw h refl

  pub all_recipients-readers :
      (g : Gpg P) (gp : GpgParameters)
      → is_empty gp.recipients ≡ false
      → all_recipients P g gp ≡ readers g.signer_key gp
  unfolding all_recipients
  all_recipients-readers g gp h =
      rw h (elim (Bool-cases (gp.self_recipient && not (is_empty g.signer_key))) [
        | inl e ↦ rw e refl
        | inr e ↦ rw e (sym (append-nil gp.recipients))
      ])

  pub gpg_process_plain_text-IsMessageTo :
      (g : Gpg P) (text c : Bytes) (gp : GpgParameters) (s : Process P)
      → Reads P
      → (gpg_process_plain_text P g text (some (gpg_parameters gp)) s).0 ≡ ok c
      → c ≢ []
      → (signers : Option (List P.gpgme.Key)) × IsMessageTo signers
          (readers g.signer_key gp)
          (text ++ 0 ∷ [])
          c
  unfolding gpg_process_plain_text dpaste_msg
  gpg_process_plain_text-IsMessageTo g text c gp s R h ne =
      elim (Bool-cases (is_empty (all_recipients P g gp))) [
        | inl e ↦ absurd (ne (cc (rw (e, gpg_process_plain_text, follow) at h)))
        | inr e ↦ elim (Bool-cases (is_empty gp.recipients)) [
          | inl f ↦
              let none_left = ap is_empty (all_recipients_none g gp (empty-nil gp.recipients f)) in
              cc (e, none_left)
          | inr f ↦
              let (signers, m) =
                encrypt-IsMessageTo g (all_recipients P g gp) text c
                  (gp.sign && not (is_empty g.signer_key)) _ R
                  (rw (e, gpg_process_plain_text, follow) at h) ne in
              (signers, rw (all_recipients-readers g gp f) at m)
        ]
      ]
