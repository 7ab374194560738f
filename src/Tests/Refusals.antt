-- ===== src/Tests/Refusals.antt =====
-- Addresses and blobs that `get` refuses, or does not open, on the toy platform.
use dpaste.Prelude.{true, false, [], ◌∷◌, ◌++◌, Bytes, codes, equal, ◌≡◌, ◌↔◌, refl, arith}
use dpaste.Effects.{unpack_error, Result, ok, throw}
use dpaste.Uri.{code_from_dpaste_uri}
use dpaste.Platform.{Process}
use dpaste.Log.{dpaste_msg, print_log}
use dpaste.Gpg.{is_gpg_encrypted, make_gpg, verify, comment_on_first}
use dpaste.Cipher.{cipher_of_text, cipher_of_scheme}
use dpaste.Http.{http_get, read_body}
use dpaste.Packet.{serialize, deserialize}
use dpaste.Bin.{bin_get, fetch, open_packet, check_signature}
use dpaste.Bin.Outcomes.{is_outcome, is_outcome-bin_get}
use dpaste.Bin.Causes.{Cause, bin_get-throw_iff}
use dpaste.Bin.Errors.{bin_get-wrong_password}
use dpaste.Packet.{Packet}
use dpaste.Bin.Forged.{bin_get-forged}
use dpaste.Tests.ToyPacking.{
  toy_packing-IsLawful, toy_packing, unpack, unpack_pairs, unpack_pair, unpack_leaf,
}
use dpaste.Tests.Toy.{toy, toy_bin, start, serve, stored}

-- The server has this text under the location code.
abbrev pub holding : Bytes → Process toy
holding blob = record start {
  world = (codes "http://127.0.0.1/74236E62?user_type=dpaste", blob) ∷ [];
}

abbrev plain_uri : Bytes
plain_uri = codes "dpaste:74236E62"

abbrev plain_code : Bytes
plain_code = codes "74236E62"

abbrev pub secret_code : Bytes
secret_code = codes "74236E6200000000"

-- A blob that ends early, one that is a text, and a packet that no password of the toy opens.
abbrev broken : Bytes
broken = 1 ∷ []

abbrev old_text : Bytes
old_text = 1 ∷ 2 ∷ codes "hi"

abbrev pub locked : Bytes
locked = serialize toy_packing (record { payload = codes "hi"; signature = [] })

fetched : Bytes → Result Bytes × Process toy
unfolding fetch http_get read_body serve stored equal
fetched blob = fetch toy toy_bin plain_code (holding blob)

bin_get-throw_iff_example :
    ((bin_get toy toy_bin plain_uri false (holding broken)).0 ≡ throw unpack_error)
    ↔ Cause toy toy_bin unpack_error plain_code (holding broken)
unfolding code_from_dpaste_uri
bin_get-throw_iff_example =
    bin_get-throw_iff toy toy_bin plain_uri plain_code false unpack_error (holding broken) refl
      (λ h w. refl)

-- The cause is there, so that the exception is thrown.
broken_thrown : (bin_get toy toy_bin plain_uri false (holding broken)).0 ≡ throw unpack_error
unfolding code_from_dpaste_uri fetched unpack
broken_thrown =
    (bin_get-throw_iff toy toy_bin plain_uri plain_code false unpack_error (holding broken) refl
        (λ h w. refl)).1
      (omega arith, (broken, refl, refl, refl))

legacy_shown : (bin_get toy toy_bin plain_uri false (holding old_text)).0 ≡ ok (true, old_text)
unfolding code_from_dpaste_uri fetched unpack unpack_leaf bin_get open_packet deserialize
legacy_shown = refl

bin_get-wrong_password_example : bin_get toy toy_bin secret_code false (holding locked) ≡ (
  ok (false, []),
  (dpaste_msg toy toy.aes.decrypt_message
      (dpaste_msg toy (codes "Decrypting (aes-gcm)...") (holding locked)).1).1,
)
unfolding code_from_dpaste_uri fetched serialize deserialize unpack unpack_pairs unpack_pair
    unpack_leaf is_gpg_encrypted equal
bin_get-wrong_password_example =
    bin_get-wrong_password toy toy_bin secret_code secret_code (codes "00000000") locked
      (record { payload = codes "hi"; signature = [] }) (holding locked) refl refl refl refl refl
      refl refl refl

is_outcome-bin_get_example :
    is_outcome (bin_get toy toy_bin secret_code false (holding locked)).0 ≡ true
is_outcome-bin_get_example = is_outcome-bin_get toy toy_bin secret_code false (holding locked)

-- A signed note, and another text beside its signature.
abbrev signed_note : Packet
signed_note = record { payload = codes "hi"; signature = codes "signed" }

abbrev note_blob : Bytes
note_blob = serialize toy_packing signed_note

abbrev forged_blob : Bytes
forged_blob = serialize toy_packing (record signed_note { payload = codes "no" })

bin_get-forged_example :
    ((bin_get toy toy_bin plain_uri false (holding forged_blob)).0 ≡ ok (true, codes "no"))
    × ((bin_get toy toy_bin plain_uri false (holding note_blob)).1.err
        ≡ (bin_get toy toy_bin plain_uri false (holding forged_blob)).1.err)
unfolding code_from_dpaste_uri fetched serialize deserialize unpack unpack_pairs unpack_pair
    unpack_leaf is_gpg_encrypted equal bin_get open_packet cipher_of_text check_signature
    cipher_of_scheme make_gpg dpaste_msg verify comment_on_first
bin_get-forged_example =
    bin_get-forged toy toy_bin plain_uri plain_code [] note_blob (codes "no") false signed_note
      (holding note_blob) (holding forged_blob) toy_packing-IsLawful refl (refl, refl) (refl, refl)
      refl (refl, refl) (omega arith, omega arith) refl
      (record { context = refl; opaque = λ signature text other. refl }) refl refl

forged_message :
    (bin_get toy toy_bin plain_uri false (holding forged_blob)).1.err
    ≡ codes "DPASTE: Data is GPG signed. Verifying...\n"
      ++ codes "DPASTE: Valid signature from key with ID ABCD\n"
unfolding code_from_dpaste_uri fetched serialize deserialize unpack unpack_pairs unpack_pair
    unpack_leaf is_gpg_encrypted equal bin_get open_packet cipher_of_text check_signature
    cipher_of_scheme make_gpg dpaste_msg verify comment_on_first print_log
forged_message = refl
