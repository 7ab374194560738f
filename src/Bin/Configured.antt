-- ===== src/Bin/Configured.antt =====
-- From the configuration file of src/conf.cpp to the object of src/bin.cpp: the server that it asks.
use dpaste.Prelude.{
  ℤ, ◌^◌, ◌<◌, pos, false, [], ◌∷◌, ◌++◌, List, some, Bytes, codes, ◌≡◌, ◌≢◌, refl, sym, ap, ◌∙◌,
  arith, append-nil,
}
use dpaste.Effects.{ok, ok-inj}
use dpaste.Conf.{lookup, load, make_file, default_config, load_text, config_file_name}
use dpaste.Conf.RoundTrip.{render, Writable, Fits, override, lookup-load_text}
use dpaste.Platform.{Platform, Process}
use dpaste.Bin.{Bin, conf_at, loaded_config, make_bin, read_long, to_long}
use dpaste.Bin.Port.{Digits, decimal, no_sign, read_long-decimal}
use dpaste.Bin.Start.{make_bin-ok}

read_long-fits :
    (unset : ℤ) (ds : Bytes)
    → Digits ds
    → ds ≢ []
    → decimal ds < 2 ^ 63
    → read_long unset ds ≡ pos (decimal ds)
read_long-fits unset ds h ne small =
    let read = read_long-decimal unset [] no_sign ds [] tt h ne refl in
    let long : to_long false (decimal ds) ≡ pos (decimal ds) = ground (arith, small) in
    rw (append-nil ds) at (read ∙ long)

module _ (P : Platform) where
  conf_at-lookup :
      (k v : Bytes) → lookup k (loaded_config P) ≡ some v → conf_at (loaded_config P) k ≡ ok v
  unfolding conf_at
  conf_at-lookup k v h = rw (h, conf_at) refl

  loaded_config-render :
      (es : List (Bytes × Bytes))
      → P.disk (P.config_dir ++ (b'/' ∷ config_file_name)) ≡ some (render es)
      → loaded_config P ≡ load_text default_config (render es)
  unfolding loaded_config load make_file
  loaded_config-render es h = rw (loaded_config, load, h) refl

  -- A configuration file that is written from options sets up the object: every listed option has its
  -- value in the configuration, and every other one its default; requests go to the listed host,
  -- and to the port whose decimal digits are listed, if it fits a `long`.
  pub make_bin-render :
      (es : List (Bytes × Bytes)) (host ds : Bytes) (s : Process P)
      → P.disk (P.config_dir ++ (b'/' ∷ config_file_name)) ≡ some (render es)
      → Writable es
      → Fits default_config es
      → lookup (codes "host") es ≡ some host
      → lookup (codes "port") es ≡ some ds
      → Digits ds
      → ds ≢ []
      → decimal ds < 2 ^ 63
      → (b : Bin) × ((make_bin P s).0 ≡ ok b)
        × (b.http_client ≡ record { host = host; port = pos (decimal ds) })
        × ((k : Bytes) → lookup k b.conf ≡ override (lookup k es) (lookup k default_config))
  make_bin-render es host ds s file w f at_host at_port digits given small =
      let (host', port', h, p, made, _) = make_bin-ok P s in
      let same = loaded_config-render es file in
      let all = lookup-load_text es default_config w f in
      let found_host : lookup (codes "host") (loaded_config P) ≡ some host =
        rw same (all (codes "host") ∙ rw at_host refl) in
      let found_port : lookup (codes "port") (loaded_config P) ≡ some ds =
        rw same (all (codes "port") ∙ rw at_port refl) in
      let hosts = ok-inj (sym h ∙ conf_at-lookup (codes "host") host found_host) in
      let ports = ok-inj (sym p ∙ conf_at-lookup (codes "port") ds found_port) in
      (
        _,
        ap (λ r. r.0) made,
        rw (hosts, ports, read_long-fits P.garbage.port ds digits given small) refl,
        λ k. rw same (all k),
      )
