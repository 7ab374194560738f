-- ===== src/Bin/Readable.antt =====
-- Which texts `Bin::get` of src/bin.cpp shows again after `Bin::paste`, and how, for all kinds of
-- parameters.
use mathlib.Core.List.{Memᴰ}
use dpaste.Prelude.{
  ◌<◌, ◌^◌, true, false, [], ◌∷◌, ◌++◌, Option, none, some, Bytes, codes, is_empty, if◌then◌else◌,
  length, ◌≡◌, ap, ◌⊎◌, inl, inr, arith,
}
use dpaste.Effects.{ok}
use dpaste.Params.{no_scheme, Parameters, GpgParameters, gpg_parameters, aes_parameters}
use dpaste.Platform.{Platform, Process}
use dpaste.Gpg.{is_gpg_encrypted}
use dpaste.Gpg.Message.{readers, IsMessageTo-IsMessage}
use dpaste.Gpg.RoundTrip.{IsOwn}
use dpaste.Packet.Laws.{deserialize-serialize}
use dpaste.Bin.{Bin, conf_at}
use dpaste.Bin.Published.{Sound}
use dpaste.Bin.RoundTrip.{after_pin}
use dpaste.Bin.Secret.{AesSound, encrypted}
use dpaste.Bin.Recipients.{prepare_data-IsSealedTo}
use dpaste.Bin.Sealed.{GpgSound, Opened-clear, open_packet_gpg}
use dpaste.Bin.Reading.{Opened, Opened-plain, Opened-aes}

-- What is shown of a text: with a recipient of GPG, a null byte more.
abbrev pub shown : Option Parameters → Bytes → Bytes
shown none text = text
shown (some (aes_parameters p)) text = text
shown (some (gpg_parameters p)) text = if is_empty p.recipients then text else text ++ 0 ∷ []

module _ (P : Platform) (held : P.gpgme.Key → Type 0) where
  -- All that is relied on of the libraries, and the configured key.
  pub record Reliable (b : Bin) (keyid : Bytes) : Type 0 where
    pub sound : Sound P b
    pub aes : AesSound P
    pub gpg : GpgSound P held
    pub scheme : P.garbage.scheme ≡ no_scheme
    pub configured : conf_at b.conf (codes "pgp_key_id") ≡ ok keyid

  -- GpgME does not take the text for an encrypted one, and it is not too long.
  abbrev pub IsClear : Bytes → Type 0
  IsClear text = (is_gpg_encrypted P text ≡ false) × (length text < 2 ^ 31)

  -- A text that is not encrypted is to be clear; what AES makes of one when it is pasted in this
  -- state is not to be taken for encrypted by GpgME; one for readers is to have one whose key is
  -- held.
  abbrev pub IsReadable : Bin → Process P → Bytes → Option Parameters → Bytes → Type 0
  IsReadable b s keyid none text = IsClear text
  IsReadable b s keyid (some (aes_parameters p)) text =
      (length text < 2 ^ 31) × (is_gpg_encrypted P (encrypted P b text (after_pin P b s)).0 ≡ false)
  IsReadable b s keyid (some (gpg_parameters p)) text =
      ((p.recipients ≡ []) × IsClear text)
      ⊎ ((is_empty p.recipients ≡ false)
          × (length (text ++ 0 ∷ []) < 2 ^ 31)
          × ((own : Bytes) × Memᴰ own (readers keyid p) × IsOwn P held own))

  module _ (b : Bin) (keyid : Bytes) (R : Reliable b keyid) where
    Opened-sealed :
        (text own : Bytes) (gp : GpgParameters) (s : Process P)
        → is_empty gp.recipients ≡ false
        → length (text ++ 0 ∷ []) < 2 ^ 31
        → Memᴰ own (readers keyid gp)
        → IsOwn P held own
        → Opened P b text (some (gpg_parameters gp)) (text ++ 0 ∷ []) s
    Opened-sealed text own gp s some_given small among mine = record {
      at = λ p pwd code t l h.
          let ((signing, w, _, m), bare, e) =
            prepare_data-IsSealedTo P b text pwd keyid gp p (after_pin P b s) R.gpg.opens.reads
              R.configured some_given h in
          let size =
            R.gpg.message_size _ p.payload small (IsMessageTo-IsMessage P _ _ _ p.payload m) in
          let bare_size : length p.signature < 2 ^ 32 = rw bare (omega arith) in
          (
            size,
            bare_size,
            open_packet_gpg P held R.gpg _ (readers keyid gp) _ (code ++ pwd) pwd own
                (text ++ 0 ∷ []) p t
                (deserialize-serialize P.msgpack R.sound.packing p size bare_size) m among mine,
          );
    }

    pub IsReadable-Opened :
        (text : Bytes) (params : Option Parameters) (s : Process P)
        → IsReadable b s keyid params text
        → Opened P b text params (shown params text) s
    IsReadable-Opened text none s (plain, small) =
        Opened-plain P b text s R.sound R.scheme plain (omega (arith, small))
    IsReadable-Opened text (some (aes_parameters p)) s (small, bare) =
        Opened-aes P b text p s R.sound R.aes small bare
    IsReadable-Opened text (some (gpg_parameters p)) s (inl (none_given, (plain, small))) =
        let none_left : is_empty p.recipients ≡ true = ap is_empty none_given in
        rw none_left
          (Opened-clear P held R.gpg b text p s none_given plain (omega (arith, small)) R.sound)
    IsReadable-Opened text (some (gpg_parameters p)) s
          (inr (some_given, small, (own, among, mine))) =
        rw some_given (Opened-sealed text own p s some_given small among mine)
