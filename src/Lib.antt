-- ===== src/Lib.antt =====
-- dpaste, a pastebin over the distributed hash table OpenDHT (src/): a text is published under a
-- random pin, on an HTTP server or by a local node, plain or encrypted, and read back by the pin.
--
-- The parts, and where they stand:
--   Conf: src/conf.h, src/conf.cpp. `ConfigurationFile` and `load`, with its two loops over
--     `getline` (`scan_file`, `scan_line`) and `trim_str`.
--   Pin: `Bin::random_pin` of src/bin.cpp, with its static variables (`Statics`).
--   Uri: `Bin::code_from_dpaste_uri` of src/bin.cpp.
--   Params, Cipher: src/cipher.h, src/cipher.cpp. The parameters of a cipher, `Cipher::get`
--     (`cipher_of_text`, `cipher_of_scheme`), and the virtual methods as functions by cases on the
--     subclass.
--   Aes: src/aescrypto.cpp. Gpg: src/gpgcrypto.cpp. The methods carry the class in their name
--     (`aes_process_plain_text`).
--   Http: src/http_client.cpp. Node: src/node.h, src/node.cpp. The two threads of `Node::stop` and
--     of the blocking `Node::paste`, with their lock and condition variable, are the step relation
--     of Node.Threads, where `Wait` says which of the two it is; Node.Wait is that of `paste` with
--     the lock and the sleep forgotten, and `wait_result` what is returned.
--   Packet: `Bin::Packet` and `findMapValue` of src/bin.cpp. Bin: the class `Bin`: its constructor
--     (`make_bin`), `get` (`bin_get`), `prepare_data`, `paste` (`bin_paste`).
--   Log: src/log.cpp. Args, Main: src/main.cpp.
--   Frame: predicates of the process that `Bin::get` and `Bin::paste` respect (`Respects`), and
--     the states over many calls in one run, the step relation `Session`. Store: the same for the
--     outside world, and the specification: a board of posts in no order, a quotient (`Board`,
--     `pin_up`, `holds`), with the calls of many processes on one outside world (`History`).
--     Bin.Readable: which texts can be read again (`IsReadable`), and what is shown (`shown`).
--     Bin.Refused and Bin.Causes: the server's replies that `get` throws at (`IsRefused`), and what
--     is behind each of its exceptions (`Cause`). Bin.Forged: what the check of a signature is
--     worth, and the worlds that are `Alike` for GpgME. Main.Phases and Main.RoundTrip: runs of the
--     program, one after the other in one outside world (`Lasting`). Main.Encryption: the way from
--     the options to the packet (`IsSealed`).
--   Prelude, Effects: shared names, strings as lists of bytes, exceptions and computations on a
--     state.
--   Tests: runs on a small platform (Tests.Toy), and the results below at inputs where their
--     hypotheses hold.
--
-- A call of the program is a function from the state of the process to a result, or an exception,
-- and a new state (`Do` of Platform). The state is the outside world, the static variables and the
-- two output streams. `main` parses the arguments, makes a `Bin`, and calls `get` or `paste`;
-- `Bin` calls the server first and the node where the server fails.
--
-- Code that is not in the repository is the record `Platform`: the generator and its seed,
-- msgpack-c, GpgME, the AES functions of OpenDHT, cURLpp with the JSON and base64 libraries, the
-- table, the file system. What a theorem needs of a library is a record of laws (`IsLawful` of
-- msgpack; `Keeps` of the server and the table, which says that a value put where there was
-- nothing is found, and nothing of the order of several; `InRange` of the generator; `Sound` of
-- all three; `AesSound`, or `AesFull` where only that is needed; `Reads`, `Opens` and `GpgSound`
-- of GpgME for a user that holds certain keys, `Lasting` and `Network` of the network and the
-- stores over many runs; `Reliable` is all of those on the libraries together), which the platform
-- of the tests meets. That nothing was in the stores under the pin of a paste (`IsUnused`,
-- `IsFree`) and that GpgME does not take a cipher text of AES for its own are conditions on the
-- single paste, since the program does not see to either. Variables that the program reads before
-- it sets them are the fields of `Garbage`, so that theorems hold for all their values or name the
-- one they need.
--
-- Bounds and fuel: a string is a list of numbers, which the code only compares and copies.
-- `getline` takes a byte at least, so that the loops of `load` have fuel enough with one round
-- more than there are bytes. A pin has room for eight hexadecimal digits, enough for 32 bits.
-- `dataToVector` has one round more than there are bytes.
--
-- Not modelled: src/curlpp/Options.hpp, a copy of a library header; the copies and moves of
-- values; exceptions of the standard library for want of memory; the exceptions of cURLpp's
-- setters, which end as those of `perform` do; the text that `vsnprintf` makes of a format.
pub mod Prelude
pub mod Effects
pub mod Conf
pub mod Pin
pub mod Uri
pub mod Params
pub mod Platform
pub mod Log
pub mod Aes
pub mod Gpg
pub mod Cipher
pub mod Node
pub mod Http
pub mod Packet
pub mod Bin
pub mod Args
pub mod Main
pub mod Frame
pub mod Store
pub mod Tests
