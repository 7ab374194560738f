-- ===== src/Bin/Unknown.antt =====
-- `Bin::paste` of src/bin.cpp for a recipient that GpgME has no key of.
use mathlib.Core.List.{Memᴰ}
use mathlib.Core.List.Memᴰ.{head, tail}
use dpaste.Prelude.{false, [], ◌∷◌, ◌++◌, List, some, Bytes, codes, is_empty, ◌≡◌, refl, inl, inr}
use dpaste.Effects.{Exception, ok, throw, Result-cases, follow}
use dpaste.Params.{GpgParameters, gpg_parameters}
use dpaste.Platform.{Platform, Process, no_key}
use dpaste.Gpg.Data.{Reads}
use dpaste.Gpg.Message.{readers, Found-key}
use dpaste.Bin.{Bin, conf_at, prepare_data, bin_paste}
use dpaste.Bin.RoundTrip.{after_pin, fresh_pin_lem}
use dpaste.Bin.Recipients.{prepare_data-IsSealedTo}

Memᴰ-append : (name : Bytes) (xs ys : List Bytes) → Memᴰ name xs → Memᴰ name (xs ++ ys)
Memᴰ-append name [] ys m = elim m [ ]
Memᴰ-append name (_ ∷ xs) ys (head e) = head e
Memᴰ-append name (_ ∷ xs) ys (tail m) = tail (Memᴰ-append name xs ys m)

Memᴰ-full : (name : Bytes) (xs : List Bytes) → Memᴰ name xs → is_empty xs ≡ false
Memᴰ-full name (x ∷ xs) m = refl
Memᴰ-full name [] m = elim m [ ]

module _ (P : Platform) (b : Bin) where
  bin_paste-thrown :
      (text : Bytes) (gp : GpgParameters) (e : Exception) (s : Process P)
      → (prepare_data P b text (some (gpg_parameters gp)) (after_pin P b s)).0 ≡ throw e
      → bin_paste P b text (some (gpg_parameters gp)) s
        ≡ (throw e, (prepare_data P b text (some (gpg_parameters gp)) (after_pin P b s)).1)
  unfolding bin_paste
  bin_paste-thrown text gp e s h = rw (fresh_pin_lem P b s) (rw (h, follow) refl)

  -- If GpgME finds no key for one of the recipients, in whatever place, and data objects are read
  -- as documented, an exception leaves `paste`. It is the one that the preparation throws, and
  -- nothing is published: the state is the one that the preparation leaves.
  pub bin_paste-unknown :
      (text keyid name : Bytes) (gp : GpgParameters) (s : Process P)
      → Reads P
      → conf_at b.conf (codes "pgp_key_id") ≡ ok keyid
      → Memᴰ name gp.recipients
      → ((w : P.World) → (e : Bytes) × (P.gpgme.find_key name w ≡ no_key e))
      → let ready = prepare_data P b text (some (gpg_parameters gp)) (after_pin P b s) in
        (e : Exception) × (ready.0 ≡ throw e)
        × (bin_paste P b text (some (gpg_parameters gp)) s ≡ (throw e, ready.1))
  bin_paste-unknown text keyid name gp s R configured among unknown =
      let t = after_pin P b s in
      elim (Result-cases (prepare_data P b text (some (gpg_parameters gp)) t).0) [
        | inr (e, h) ↦ (e, h, bin_paste-thrown text gp e s h)
        | inl ((p, pwd), h) ↦
            let some_given = Memᴰ-full name gp.recipients among in
            let ((signing, v, own, (keys, w, all_found, _, _)), _, _) =
              prepare_data-IsSealedTo P b text pwd keyid gp p t R configured some_given h in
            let (k, _, e) =
              Found-key P w (readers keyid gp) keys name all_found
                (Memᴰ-append name gp.recipients _ among) in
            let (x, f) = unknown w in cc (e, f)
      ]
