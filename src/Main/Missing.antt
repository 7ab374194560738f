-- ===== src/Main/Missing.antt =====
-- `main` of src/main.cpp, asked for an address that neither the server nor the table has.
use dpaste.Prelude.{
  Bool, true, false, [], Bytes, is_empty, take, length, ◌≤◌, ◌≡◌, refl, ◌∙◌, append-nil, arith,
  none,
}
use dpaste.Effects.{ok}
use dpaste.Args.{ParsedArgs}
use dpaste.Uri.{code_from_dpaste_uri}
use dpaste.Platform.{Platform, Process}
use dpaste.Http.{get_request, read_reply, http_get}
use dpaste.Node.{dpaste_user_type, node_get}
use dpaste.Bin.{Bin, make_bin, fetch, bin_get}
use dpaste.Main.{run_args}
use dpaste.Main.Phases.{ready, run_args-get, run_get-ok, ready-out}

module _ (P : Platform) where
  -- Nothing is there for the code: the server's reply gives no text, and the table has no value
  -- then.
  abbrev pub IsMissing : Bin → Bytes → P.World → Type 0
  IsMissing b code w =
      let reply = P.http.perform (get_request P b.http_client code) w in
      ((s : Process P) → read_reply P reply.0 s ≡ (ok [], s))
      × ((P.dht.get (P.dht.info_hash code) dpaste_user_type reply.1).0.0 ≡ [])

  fetch-missing :
      (b : Bin) (code : Bytes) (s : Process P)
      → IsMissing b code s.world
      → (fetch P b code s).0 ≡ ok []
  unfolding fetch http_get node_get
  fetch-missing b code s (none_there, none_found) = rw none_there (rw none_found refl)

  bin_get-missing :
      (b : Bin) (uri code : Bytes) (no_decrypt : Bool) (s : Process P)
      → code_from_dpaste_uri uri ≡ ok code
      → 8 ≤ length code
      → (fetch P b (take 8 code) s).0 ≡ ok []
      → (bin_get P b uri no_decrypt s).0 ≡ ok (true, [])
  unfolding bin_get
  bin_get-missing b uri code no_decrypt s c l f = rw c (ground (arith, l, f))

  -- A run that asks for a text that is not there, under a code that is long enough, ends with 0 and
  -- prints nothing, as one that finds an empty text would.
  pub run_args-missing :
      (b : Bin) (pa : ParsedArgs) (code input : Bytes) (s : Process P)
      → (make_bin P s).0 ≡ ok b
      → ((w : P.World) → P.gpgme.check_engine w ≡ none)
      → (pa.fail ≡ false) × (pa.help ≡ false) × (pa.version ≡ false)
      → is_empty pa.code ≡ false
      → code_from_dpaste_uri pa.code ≡ ok code
      → 8 ≤ length code
      → IsMissing b (take 8 code) (ready P s).world
      → ((run_args P pa input s).0 ≡ ok 0) × ((run_args P pa input s).1.out ≡ s.out)
  run_args-missing b pa code input s m engine work asked c l missing =
      let t = ready P s in
      let got =
        bin_get-missing b pa.code code pa.no_decrypt t c l
          (fetch-missing b (take 8 code) t missing) in
      let (zero, prints) = run_get-ok P b pa.code [] pa.no_decrypt t got in
      let same = run_args-get P b pa input s m engine work asked in
      rw same (zero, prints ∙ (append-nil t.out ∙ ready-out P s engine))
