-- ===== src/Bin/Start.antt =====
-- `Bin::Bin` of src/bin.cpp: what is there after the constructor.
use dpaste.Prelude.{
  ℤ, All, List, [], ◌∷◌, some, Bytes, codes, equal, map, ◌≡◌, refl, sym, ap, ◌∙◌, Bool-cases, true,
  false, inl, inr, if◌then◌else◌, Bool,
}
use dpaste.Effects.{ok, ok-inj}
use dpaste.Conf.{Config, lookup, make_file, default_config}
use dpaste.Conf.Options.{load-keys}
use dpaste.Platform.{Platform, Process}
use dpaste.Node.{node_run, default_bootstrap_node, default_bootstrap_port}
use dpaste.Bin.{loaded_config, conf_at, make_bin, is_space, read_long}

abbrev keys : Config → List Bytes
keys c = map (λ e. e.0) c

abbrev has : Bytes → List Bytes → Bool
has k [] = false
has k (j ∷ ks) = if equal j k then true else has k ks

lookup-has : (k : Bytes) (c : Config) → has k (keys c) ≡ true → (v : Bytes) × (lookup k c ≡ some v)
unfolding lookup
lookup-has k [] h = cc
lookup-has k ((j, v) ∷ c) h = elim (Bool-cases (equal j k)) [
  | inl e ↦ (v, rw e refl)
  | inr e ↦ rw e (lookup-has k c (rw e at h))
]

read_long_blank :
    (unset : ℤ) (text : Bytes) → All (λ c. is_space c ≡ true) text → read_long unset text ≡ unset
unfolding read_long
read_long_blank unset [] h = refl
read_long_blank unset (c ∷ text) h = rw h.0 (read_long_blank unset text h.1)

module _ (P : Platform) where
  loaded-keys : keys (loaded_config P) ≡ keys default_config
  unfolding loaded_config make_file
  loaded-keys = (load-keys P.disk (make_file P.config_dir [])).0

  conf_at-loaded :
      (k : Bytes)
      → has k (keys default_config) ≡ true
      → (v : Bytes) × (conf_at (loaded_config P) k ≡ ok v)
  unfolding conf_at
  conf_at-loaded k h =
      let (v, e) = lookup-has k (loaded_config P) (rw loaded-keys h) in (v, rw (e, conf_at))

  -- The node, started on any port and told the default bootstrap node.
  abbrev pub bootstrapped : Process P → Process P
  bootstrapped s = record s {
    world = P.dht.bootstrap default_bootstrap_node default_bootstrap_port (P.dht.run 0 s.world);
  }

  -- The object is always built: `at` finds the host and the port, whatever the file says and if it
  -- is not there, and the node is started, told the bootstrap node, and running. The port is the
  -- number that the stream reads, which for a text of white space only is the value of a variable
  -- that was never set.
  pub make_bin-ok :
      (s : Process P)
      → (host port : Bytes) × (conf_at (loaded_config P) (codes "host") ≡ ok host)
        × (conf_at (loaded_config P) (codes "port") ≡ ok port)
        × (make_bin P s ≡ (
          ok (record {
            conf = loaded_config P;
            http_client = record { host = host; port = read_long P.garbage.port port };
            node = record { running = true };
          }),
          bootstrapped s,
        ))
        × (All (λ c. is_space c ≡ true) port → read_long P.garbage.port port ≡ P.garbage.port)
  unfolding make_bin node_run equal
  make_bin-ok s =
      let (host, h) = conf_at-loaded (codes "host") refl in
      let (port, p) = conf_at-loaded (codes "port") refl in
      (host, port, h, p, rw p (rw h refl), read_long_blank P.garbage.port port)

  -- The object does not depend on the state.
  pub make_bin_same : (s t : Process P) → (make_bin P s).0 ≡ (make_bin P t).0
  make_bin_same s t =
      let (host, port, h, p, e, _) = make_bin-ok s in
      let (host', port', h', p', e', _) = make_bin-ok t in
      let hosts = ok-inj (sym h ∙ h') in
      let ports = ok-inj (sym p ∙ p') in rw (e, e') (rw (hosts, ports) refl)

  pub make_bin-world : (s : Process P) → (make_bin P s).1 ≡ bootstrapped s
  make_bin-world s = ap (λ r. r.1) (make_bin-ok s).4
