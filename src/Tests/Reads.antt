-- ===== src/Tests/Reads.antt =====
-- Data objects read on the toy platform, and a text encrypted for one recipient.
use dpaste.Prelude.{
  sym, ap, codes, some, false, ◌++◌, take-append, Bytes, [], ◌∷◌, ◌≢◌, arith, ◌≡◌, refl,
}
use dpaste.Effects.{ok}
use dpaste.Log.{dpaste_msg}
use dpaste.Params.{GpgParameters, gpg_parameters}
use dpaste.Platform.{Lookup, key, no_key}
use dpaste.Gpg.{
  buflen, data_to_vector, Gpg, gpg_process_plain_text, all_recipients, encrypt, encrypt_with,
  get_keys, get_key, read_loop,
}
use dpaste.Gpg.RoundTrip.{Opens, IsOwn}
use dpaste.Gpg.Data.{Reads, data_to_vector-all}
use dpaste.Tests.Toy.{toy, start}

some_read : (unread : Bytes) → unread ≢ [] → toy.gpgme.read_size buflen unread ≢ 0
some_read [] ne h = ne refl
some_read (c ∷ unread) ne h = omega arith

pub toy-Reads : Reads toy
toy-Reads = record { reads = some_read; at_end = refl }

data_to_vector-all_example : data_to_vector toy (codes "hello") ≡ codes "hello"
data_to_vector-all_example = data_to_vector-all toy toy-Reads (codes "hello")

-- The user has the key of alice.
abbrev pub ToyHeld : Bytes → Type 0
ToyHeld k = k ≡ codes "alice"

pub toy-Opens : Opens toy ToyHeld
toy-Opens = record {
  reads = toy-Reads;
  decrypt-encrypt = λ signers keys k text w u among mine e. (take-append text (0 ∷ []), refl, refl);
}

-- The context of a user with no signing key.
abbrev keyless : Gpg toy
keyless = record { ctx = some []; signer_key = [] }

abbrev for_alice : GpgParameters
for_alice = record {
  key_id = [];
  recipients = codes "alice" ∷ [];
  self_recipient = false;
  sign = false;
}

key-inj : {k : Bytes} {m : Bytes} → (◌≡◌ {A = Lookup Bytes} (key k) (key m)) → k ≡ m
key-inj h = ap (λ l. elim l [ key k ↦ k | no_key e ↦ e ]) h

pub alice-IsOwn : IsOwn toy ToyHeld (codes "alice")
alice-IsOwn k w h = sym (key-inj h)

abbrev message : Bytes
message = 254 ∷ 3 ∷ codes "hi" ++ 0 ∷ 0 ∷ []

message_made :
    (gpg_process_plain_text toy keyless (codes "hi") (some (gpg_parameters for_alice)) start).0
    ≡ ok message
unfolding gpg_process_plain_text all_recipients encrypt encrypt_with get_keys get_key data_to_vector
    read_loop dpaste_msg
message_made = refl
