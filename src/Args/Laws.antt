-- ===== src/Args/Laws.antt =====
-- What the loop of `parseArgs` in src/main.cpp makes of a list of options.
use dpaste.Prelude.{
  ℕ, Bool, true, false, ◌||◌, List, [], ◌∷◌, ◌++◌, none, some, Bytes, All, ◌==◌, if◌then◌else◌, ◌≡◌,
  refl, ap, ◌∙◌, arith, ◌⊎◌, Bool-cases, inl, inr, append-nil, append_assoc,
}
use dpaste.Args.{ParsedArgs, Opt, parse_opt, parse_opts}

-- The options that the loop knows.
abbrev pub is_known : ℕ → Bool
is_known opt =
    opt == b'h'
    || (opt == b'v'
        || (opt == b'g'
            || (opt == b'3'
                || (opt == b'4'
                    || (opt == b'r' || (opt == b's' || (opt == b'1' || opt == b'2')))))))

abbrev pub Known : List Opt → Type 0
Known = All (λ o. is_known o.0 ≡ true)

-- Is the option there, or set before?
unfoldable pub given : ℕ → List Opt → Bool → Bool
given opt [] set = set
given opt (o ∷ os) set = given opt os (o.0 == opt || set)

-- The argument that the option has last.
unfoldable pub last_argument : ℕ → List Opt → Bytes → Bytes
last_argument opt [] before = before
last_argument opt (o ∷ os) before = last_argument opt os (if o.0 == opt then o.1 else before)

-- All of its arguments in order.
unfoldable pub arguments : ℕ → List Opt → List Bytes
arguments opt [] = []
arguments opt (o ∷ os) = let rest = arguments opt os in if o.0 == opt then o.1 ∷ rest else rest

-- The options read one field at a time.
abbrev pub summary : List Opt → ParsedArgs → ParsedArgs
summary os pa = record {
  fail = pa.fail;
  help = given b'h' os pa.help;
  version = given b'v' os pa.version;
  sign = given b's' os pa.sign;
  aes_encrypt = given b'3' os pa.aes_encrypt;
  gpg_encrypt = given b'4' os pa.gpg_encrypt;
  no_decrypt = given b'1' os pa.no_decrypt;
  self_recipient = given b'2' os pa.self_recipient;
  code = last_argument b'g' os pa.code;
  recipients = pa.recipients ++ arguments b'r' os;
}

known-cases :
    (opt : ℕ)
    → is_known opt ≡ true
    → (opt ≡ b'h')
      ⊎ ((opt ≡ b'v')
          ⊎ ((opt ≡ b'g')
              ⊎ ((opt ≡ b'3')
                  ⊎ ((opt ≡ b'4')
                      ⊎ ((opt ≡ b'r') ⊎ ((opt ≡ b's') ⊎ ((opt ≡ b'1') ⊎ (opt ≡ b'2'))))))))
known-cases opt k = ground arith

parse_opt_known :
    (opt : ℕ) (optarg : Bytes) (pa : ParsedArgs)
    → is_known opt ≡ true
    → parse_opt (opt, optarg) pa ≡ some (summary ((opt, optarg) ∷ []) pa)
unfolding parse_opt given last_argument arguments
parse_opt_known opt optarg pa k = elim (known-cases opt k) [
  | inl e ↦ rw e (rw append-nil)
  | inr (inl e) ↦ rw e (rw append-nil)
  | inr (inr (inl e)) ↦ rw e (rw append-nil)
  | inr (inr (inr (inl e))) ↦ rw e (rw append-nil)
  | inr (inr (inr (inr (inl e)))) ↦ rw e (rw append-nil)
  | inr (inr (inr (inr (inr (inl e))))) ↦ rw e
  | inr (inr (inr (inr (inr (inr (inl e)))))) ↦ rw e (rw append-nil)
  | inr (inr (inr (inr (inr (inr (inr (inl e))))))) ↦ rw e (rw append-nil)
  | inr (inr (inr (inr (inr (inr (inr (inr e))))))) ↦ rw e (rw append-nil)
]

parse_opt_unknown :
    (opt : ℕ) (optarg : Bytes) (pa : ParsedArgs)
    → is_known opt ≡ false
    → parse_opt (opt, optarg) pa ≡ none
unfolding parse_opt
parse_opt_unknown opt optarg pa k = ground arith

arguments_cons :
    (opt : ℕ) (o : Opt) (os : List Opt)
    → arguments opt (o ∷ []) ++ arguments opt os ≡ arguments opt (o ∷ os)
unfolding arguments
arguments_cons opt o os = elim (Bool-cases (o.0 == opt)) [ inl e ↦ rw e refl | inr e ↦ rw e refl ]

summary_cons :
    (o : Opt) (os : List Opt) (pa : ParsedArgs)
    → summary os (summary (o ∷ []) pa) ≡ summary (o ∷ os) pa
unfolding given last_argument
summary_cons o os pa =
    rw (append_assoc pa.recipients (arguments b'r' (o ∷ [])) (arguments b'r' os))
      (rw (arguments_cons b'r' o os))

-- Options that are all known leave what each says: a flag is set if it is given, the code is the
-- argument of the last -g, and the recipients are added in their order.
pub parse_opts-Known :
    (os : List Opt) (pa : ParsedArgs) → Known os → parse_opts os pa ≡ summary os pa
unfolding parse_opts given last_argument arguments
parse_opts-Known [] pa k = rw append-nil
parse_opts-Known ((opt, optarg) ∷ os) pa k =
    rw (parse_opt_known opt optarg pa k.0, parse_opts)
      (parse_opts-Known os (summary ((opt, optarg) ∷ []) pa) k.1 ∙ summary_cons (opt, optarg) os pa)

abbrev pub failing : ParsedArgs → ParsedArgs
failing pa = record pa { fail = true }

-- The loop stops at the first option that it does not know: the arguments are refused, whatever
-- follows, and what was read before it stays.
parse_opts_unknown :
    (os rest : List Opt) (o : Opt) (pa : ParsedArgs)
    → Known os
    → is_known o.0 ≡ false
    → parse_opts (os ++ o ∷ rest) pa ≡ failing (summary os pa)
unfolding parse_opts given last_argument arguments
parse_opts_unknown [] rest (opt, optarg) pa k u =
    rw (parse_opt_unknown opt optarg pa u, parse_opts) (rw append-nil)
parse_opts_unknown ((opt, optarg) ∷ os) rest o pa k u =
    rw (parse_opt_known opt optarg pa k.0, parse_opts)
      (parse_opts_unknown os rest o (summary ((opt, optarg) ∷ []) pa) k.1 u
        ∙ ap failing (summary_cons (opt, optarg) os pa))
