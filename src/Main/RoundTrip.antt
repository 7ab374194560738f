-- ===== src/Main/RoundTrip.antt =====
-- `main` of src/main.cpp in two runs of the program: one that pastes its standard input, and one that
-- gets the address that the first printed.
use dpaste.Prelude.{
  ℕ, true, false, [], ◌∷◌, ◌++◌, none, Bytes, is_empty, ◌≡◌, ◌≢◌, refl, sym, ap, ◌∙◌,
}
use mathlib.Core.List.{append_cancel_left, append_cancel_right}
use dpaste.Effects.{ok}
use dpaste.Args.{ParsedArgs, no_args, params_from_args}
use dpaste.Platform.{Platform, Process}
use dpaste.Http.{HttpClient}
use dpaste.Bin.Store.{Answers}
use dpaste.Bin.{Bin, make_bin, data_from_stream}
use dpaste.Bin.RoundTrip.{IsUnused}
use dpaste.Bin.Reading.{bin_get-later}
use dpaste.Bin.Readable.{shown, Reliable, IsReadable, IsReadable-Opened}
use dpaste.Bin.Start.{make_bin_same}
use dpaste.Main.{run_args}
use dpaste.Main.Phases.{
  run_paste-ok, run_get-ok, ready, run_args-paste, run_args-get, ready-world, ready-out,
}

-- The command line of the second run.
abbrev pub get_args : Bytes → ParsedArgs
get_args uri = record no_args { code = uri }

same_line : (before u v : Bytes) → before ++ (u ++ b'\n' ∷ []) ≡ before ++ (v ++ b'\n' ∷ []) → u ≡ v
same_line before u v h = append_cancel_right u v (b'\n' ∷ []) (append_cancel_left before _ _ h)

full_ne : (u : Bytes) → is_empty u ≡ false → u ≢ []
full_ne [] h e = cc
full_ne (c ∷ u) h e = cc

module _ (P : Platform) where
  -- Neither the second run nor the network in between changes what the stores have, and
  -- `Cipher::init` finds its engine.
  pub record Lasting (c : HttpClient) : Type 0 where
    pub engine : (w : P.World) → P.gpgme.check_engine w ≡ none
    pub joining :
        (code blob host port : Bytes) (n : ℕ) (w : P.World)
        → Answers P c w code blob
        → Answers P c (P.dht.bootstrap host port (P.dht.run n w)) code blob

  -- A text on the standard input of one run is what another run prints for the address that the
  -- first one printed, however it was pasted: as it is, signed, encrypted with AES, or encrypted
  -- with GPG for a reader whose key is held, and then with a null byte at its end. The first run
  -- ends with 0, the second starts in the outside world that the first one left, nothing was in the
  -- stores under the pin that the first one drew, neither a text that is not encrypted nor the
  -- cipher text of AES is one that GpgME takes for encrypted, the scheme that is never set reads as
  -- none, the server and the table keep what they took under a free pin, and the other libraries
  -- behave as documented. The second ends with 0 and prints nothing else; of the input it has the
  -- part that a value has room for, which must be of fewer than 2 ^ 31 bytes.
  pub run_args-run_args :
      (held : P.gpgme.Key → Type 0) (b : Bin) (pa : ParsedArgs) (keyid input uri rest : Bytes)
      (s t : Process P)
      → Reliable P held b keyid
      → Lasting b.http_client
      → (make_bin P s).0 ≡ ok b
      → (pa.fail ≡ false) × (pa.help ≡ false) × (pa.version ≡ false)
      → is_empty pa.code ≡ true
      → let params = params_from_args P.garbage pa in
        let text = data_from_stream P input in
        IsUnused P b text params (ready P s)
        → IsReadable P held b (ready P s) keyid params text
        → (run_args P pa input s).0 ≡ ok 0
        → (run_args P pa input s).1.out ≡ s.out ++ (uri ++ b'\n' ∷ [])
        → t.world ≡ (run_args P pa input s).1.world
        → ((run_args P (get_args uri) rest t).0 ≡ ok 0)
          × ((run_args P (get_args uri) rest t).1.out ≡ t.out ++ shown params text)
  run_args-run_args held b pa keyid input uri rest s t R L m work none_asked unused readable h
        printed world =
      let text = data_from_stream P input in
      let params = params_from_args P.garbage pa in
      let O = IsReadable-Opened P held b keyid R text params (ready P s) readable in
      let first = run_args-paste P b pa input s m L.engine work none_asked in
      let (u, pasted, full, out, left) =
        run_paste-ok P b input pa (ready P s) (ap (λ r. r.0) (sym first) ∙ h) in
      let same : uri ≡ u = same_line s.out uri u (
        sym printed
        ∙ (ap (λ r. r.1.out) first
            ∙ (out ∙ ap (λ o. o ++ (u ++ b'\n' ∷ [])) (ready-out P s L.engine)))) in
      let kept = world ∙ (ap (λ r. r.1.world) first ∙ left) in
      let later =
        bin_get-later P b text (shown params text) u params (ready P s) (ready P t) R.sound O unused
          pasted (full_ne u full)
          (λ code blob stored.
            rw (ready-world P t L.engine) (L.joining code blob _ _ 0 t.world (rw kept stored))) in
      let m2 = make_bin_same P t s ∙ m in
      let (zero, prints) = run_get-ok P b u (shown params text) false (ready P t) later in
      let second =
        run_args-get P b (get_args uri) rest t m2 L.engine (refl, refl, refl) (rw same full) in
      rw second (rw same (zero, prints ∙ ap (λ o. o ++ shown params text) (ready-out P t L.engine)))
