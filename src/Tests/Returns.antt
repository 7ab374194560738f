-- ===== src/Tests/Returns.antt =====
-- A run of the program that fails: no password of the toy platform opens the packet.
use dpaste.Prelude.{[], equal, ◌≡◌, refl}
use dpaste.Effects.{ok}
use dpaste.Bin.{make_bin, conf_at, loaded_config, bin_get, fetch, open_packet}
use dpaste.Node.{node_run}
use dpaste.Gpg.{gpg_init, is_gpg_encrypted}
use dpaste.Cipher.{cipher_init, cipher_of_text, process_cipher_text}
use dpaste.Aes.{aes_process_cipher_text}
use dpaste.Log.{dpaste_msg}
use dpaste.Uri.{code_from_dpaste_uri}
use dpaste.Http.{http_get, read_body}
use dpaste.Packet.{serialize, deserialize}
use dpaste.Tests.ToyPacking.{unpack, unpack_pairs, unpack_pair, unpack_leaf}
use dpaste.Main.{run_args, run_get}
use dpaste.Main.RoundTrip.{get_args}
use dpaste.Main.Returns.{Returned, run_args-Returned}
use dpaste.Tests.Toy.{toy, serve, stored}
use dpaste.Tests.Refusals.{holding, locked, secret_code}

failed_run : (run_args toy (get_args secret_code) [] (holding locked)).0 ≡ ok 1
unfolding run_args run_get equal make_bin conf_at loaded_config node_run cipher_init gpg_init
    bin_get code_from_dpaste_uri fetch http_get read_body serve stored serialize open_packet
    deserialize unpack unpack_pairs unpack_pair unpack_leaf cipher_of_text process_cipher_text
    aes_process_cipher_text dpaste_msg is_gpg_encrypted
failed_run = refl

run_args-Returned_example :
    Returned toy 1
      (holding locked).out
      (run_args toy (get_args secret_code) [] (holding locked)).1.out
run_args-Returned_example =
    run_args-Returned toy (get_args secret_code) [] 1 (holding locked) failed_run
