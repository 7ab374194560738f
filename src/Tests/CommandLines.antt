-- ===== src/Tests/CommandLines.antt =====
-- Command lines, as `getopt_long` reads them.
use dpaste.Prelude.{true, List, [], ◌∷◌, codes, ◌≡◌, refl}
use dpaste.Args.{Opt, parse_opts, no_args}
use dpaste.Args.Laws.{Known, summary, given, last_argument, arguments, parse_opts-Known}

-- --gpg-encrypt -r alice -s -r bob
abbrev for_two : List Opt
for_two = (b'4', []) ∷ (b'r', codes "alice") ∷ (b's', []) ∷ (b'r', codes "bob") ∷ []

for_two_read : summary for_two no_args ≡ record no_args {
  gpg_encrypt = true;
  sign = true;
  recipients = codes "alice" ∷ codes "bob" ∷ [];
}
unfolding given last_argument arguments
for_two_read = refl

known : Known for_two
known = (refl, (refl, (refl, (refl, tt))))

parse_opts-Known_example : parse_opts for_two no_args ≡ summary for_two no_args
parse_opts-Known_example = parse_opts-Known for_two no_args known
