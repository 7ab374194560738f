-- ===== src/Bin/Made.antt =====
-- `Bin::prepare_data` of src/bin.cpp with the parameters of GPG, up to the packet: the object of the
-- cipher that it makes.
use dpaste.Prelude.{
  not, ◌&&◌, List, [], ◌∷◌, some, Bytes, codes, is_empty, ◌≡◌, sym, ap, ◌∙◌, inl, inr, Bool-cases,
}
use dpaste.Effects.{ok-inj, ok, Result-cases, follow}
use dpaste.Params.{gpg_scheme, GpgParameters, gpg_parameters, gpg_of_key}
use dpaste.Platform.{Platform, Process}
use dpaste.Gpg.{Gpg, get_key, make_gpg}
use dpaste.Gpg.Message.{Found, found_all, found, get_key-ok}
use dpaste.Cipher.{gpg_cipher, cipher_of_scheme}
use dpaste.Packet.{Packet}
use dpaste.Bin.{Bin, Plan, conf_at, make_plan, make_packet, prepare_data}

-- The name of the signer, where there is one.
abbrev pub signer_names : Bytes → List Bytes
signer_names [] = []
signer_names signer = signer ∷ []

module _ (P : Platform) where
  -- A `GPG` object that was made: it has a context, and the key of the signer if one was named.
  abbrev pub IsMade : Bytes → Gpg P → Type 0
  IsMade signer g =
      (signing : List P.gpgme.Key) × (w : P.World) × (g.ctx ≡ some signing)
      × (g.signer_key ≡ signer)
      × Found P w (signer_names signer) signing

  make_gpg-IsMade :
      (signer : Bytes) (g : Gpg P) (s : Process P)
      → (make_gpg P signer s).0 ≡ ok g
      → IsMade signer g
  unfolding make_gpg
  make_gpg-IsMade [] g s h = elim (Bool-cases (P.gpgme.has_context s.world)) [
    | inr f ↦ cc (rw (f, make_gpg) at h)
    | inl t ↦
        let e = ok-inj (rw (t, make_gpg) at h) in
        ([], s.world, ap (λ g. g.ctx) (sym e), ap (λ g. g.signer_key) (sym e), found_all)
  ]
  make_gpg-IsMade (c ∷ signer) g s h = elim (Bool-cases (P.gpgme.has_context s.world)) [
    | inr f ↦ cc (rw (f, make_gpg) at h)
    | inl t ↦
        let h1 = rw (t, make_gpg) at h in
        elim (Result-cases (get_key P (c ∷ signer) s).0) [
          | inr (x, f) ↦ cc (rw (f, follow) at h1)
          | inl (k, f) ↦
              let e = ok-inj (rw (f, follow) at h1) in
              let q = (get_key-ok P (c ∷ signer) k s f).0 in
              (
                k ∷ [],
                s.world,
                ap (λ g. g.ctx) (sym e),
                ap (λ g. g.signer_key) (sym e),
                found q found_all,
              )
        ]
  ]

  abbrev pub gpg_plan : Bytes → GpgParameters → Plan P
  gpg_plan keyid gp = record {
    scheme = gpg_scheme;
    init_params = some (gpg_parameters (gpg_of_key P.garbage keyid));
    params = some (gpg_parameters gp);
    pwd = [];
    to_sign = gp.sign && not (is_empty keyid);
  }

  -- What `prepare_data` returns comes from such an object.
  pub prepare_gpg :
      (b : Bin) (text pwd : Bytes) (gp : GpgParameters) (p : Packet) (s : Process P)
      → (prepare_data P b text (some (gpg_parameters gp)) s).0 ≡ ok (p, pwd)
      → (keyid : Bytes) × (g : Gpg P) × (t : Process P) × (conf_at b.conf (codes "pgp_key_id")
          ≡ ok keyid)
        × IsMade keyid g
        × ((make_packet P (some (gpg_cipher g)) text (gpg_plan keyid gp) t).0 ≡ ok p)
        × (pwd ≡ [])
  unfolding prepare_data make_plan cipher_of_scheme
  prepare_gpg b text pwd gp p s h = elim (Result-cases (conf_at b.conf (codes "pgp_key_id"))) [
    | inr (x, f) ↦ cc (rw (f, prepare_data, make_plan, follow) at h)
    | inl (keyid, f) ↦
        let h1 = rw (f, prepare_data, make_plan, follow) at h in
        elim (Result-cases (make_gpg P keyid s).0) [
          | inr (x, m) ↦ cc (rw (m, follow) at h1)
          | inl (g, m) ↦
              let h2 = rw (m, follow) at h1 in
              let t = (make_gpg P keyid s).1 in
              elim (Result-cases
                (make_packet P (some (gpg_cipher g)) text (gpg_plan keyid gp) t).0) [
                  | inr (x, k) ↦ cc (rw (k, follow) at h2)
                  | inl (q, k) ↦
                      let e = ok-inj (rw (k, follow) at h2) in
                      (
                        keyid,
                        g,
                        t,
                        f,
                        make_gpg-IsMade keyid g s m,
                        k ∙ ap ok (ap (λ r. r.0) e),
                        ap (λ r. r.1) (sym e),
                      )
                ]
        ]
  ]
