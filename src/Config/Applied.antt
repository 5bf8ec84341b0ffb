-- ===== src/Config/Applied.antt =====
-- What the loop over the command line's arguments (src/config/config.cpp) does with each of the values that
-- they give, when it does not throw.
use mathlib.Core.Path.{subst}
use ntonix.Common.{
  ℕ, ◌≡◌, ◌⊎◌, refl, ap, sym, ◌∙◌, Bool, true, false, ◌||◌, List, [], ◌∷◌, ◌++◌, Option, none, some,
  arith, Text, codes, starts_with, Bool-cases, Option-cases, inl, inr,
}
use ntonix.Config.Arguments.{apply_arguments-false, apply_arguments-nil, apply_arguments-true}
use ntonix.Config.CommandLine.{
  CliOption, port, ssl_port, threads, bind_address, backend, unknown, apply_option, apply_argument,
  apply_arguments, one_of, head, set_port, set_ssl_port, set_threads, set_bind_address,
}
use ntonix.Config.Given.{Values, no_values, both, own_values, value_names, given, given_of}
use ntonix.Config.Reading.{read, read_lem}
use ntonix.Config.Manager.{
  ConfigManager, Outcome, returns, throws, ◌then_do◌, add_backends, override,
}
use ntonix.Config.Parse.{stoul, stoul_u16, Parsed, parsed, failed, parse_backend}
use ntonix.Config.{BackendConfig, ConfigError, invalid_port, invalid_ssl_port, invalid_threads}

-- Each of the values in turn is read and recorded.
abbrev pub Recorded : {A : Type 0} → (Text → Option A) → Option A → List Text → Option A → Type 0
Recorded parse before [] after = after ≡ before
Recorded {A = A} parse before (s ∷ ss) after =
    (a : A) × (parse s ≡ some a) × Recorded parse (some a) ss after

Recorded-append :
    {A : Type 0} (parse : Text → Option A) (before between after : Option A) (ss ts : List Text)
    → Recorded parse before ss between
    → Recorded parse between ts after
    → Recorded parse before (ss ++ ts) after
Recorded-append parse before between after [] ts h k = subst (λ o. Recorded parse o ts after) h k
Recorded-append parse before between after (s ∷ ss) ts (a, e, h) k =
    (a, e, Recorded-append parse (some a) between after ss ts h k)

-- The backends that are read are added at the end.
abbrev pub Appended : List BackendConfig → List Text → List BackendConfig → Type 0
Appended before [] after = after ≡ before
Appended before (s ∷ ss) after =
    (b : BackendConfig) × (parse_backend s ≡ parsed b) × Appended (before ++ b ∷ []) ss after

Appended-append :
    (before between after : List BackendConfig) (ss ts : List Text)
    → Appended before ss between
    → Appended between ts after
    → Appended before (ss ++ ts) after
Appended-append before between after [] ts h k = subst (λ bs. Appended bs ts after) h k
Appended-append before between after (s ∷ ss) ts (b, e, h) k =
    (b, e, Appended-append (before ++ b ∷ []) between after ss ts h k)

pub record IsApplied (v : Values) (m m' : ConfigManager) : Type 0 where
  pub port : Recorded stoul_u16 m.cli_port v.ports m'.cli_port
  pub ssl_port : Recorded stoul_u16 m.cli_ssl_port v.ssl_ports m'.cli_ssl_port
  pub threads : Recorded stoul m.cli_threads v.thread_counts m'.cli_threads
  pub bind_address : Recorded some m.cli_bind_address v.bind_addresses m'.cli_bind_address
  pub backends : Appended m.config.backends v.backends m'.config.backends

none-IsApplied : (m : ConfigManager) → IsApplied no_values m m
none-IsApplied m = record {
  port = refl;
  ssl_port = refl;
  threads = refl;
  bind_address = refl;
  backends = refl;
}

both-IsApplied :
    (v w : Values) (m m' m'' : ConfigManager)
    → IsApplied v m m'
    → IsApplied w m' m''
    → IsApplied (both v w) m m''
both-IsApplied v w m m' m'' h k = record {
  port =
      Recorded-append stoul_u16 m.cli_port m'.cli_port m''.cli_port v.ports w.ports h.port k.port;
  ssl_port =
      Recorded-append stoul_u16 m.cli_ssl_port m'.cli_ssl_port m''.cli_ssl_port v.ssl_ports
        w.ssl_ports h.ssl_port k.ssl_port;
  threads =
      Recorded-append stoul m.cli_threads m'.cli_threads m''.cli_threads v.thread_counts
        w.thread_counts h.threads k.threads;
  bind_address =
      Recorded-append some m.cli_bind_address m'.cli_bind_address m''.cli_bind_address
        v.bind_addresses w.bind_addresses h.bind_address k.bind_address;
  backends =
      Appended-append m.config.backends m'.config.backends m''.config.backends v.backends w.backends
        h.backends k.backends;
}

override-cases :
    (parse : Text → Option ℕ) (error : Text → ConfigError)
    (store : ℕ → ConfigManager → ConfigManager) (s : Text) (m m' : ConfigManager)
    → override parse error store (some s) m ≡ (m', none)
    → (n : ℕ) × (parse s ≡ some n) × (store n m ≡ m')
override-cases parse error store s m m' h = elim (Option-cases (parse s)) [
  | inl bad ↦ absurd (ground arith)
  | inr (n, good) ↦ (n, good, ground arith)
]

added_cases :
    (r : Parsed BackendConfig) (m m' : ConfigManager)
    → (elim r as (λ _. Outcome) [
      | parsed b ↦ returns (add_backends (b ∷ []) m)
      | failed e ↦ throws m e
    ])
      ≡ (m', none)
    → (b : BackendConfig) × (r ≡ parsed b) × (add_backends (b ∷ []) m ≡ m')
added_cases (parsed b) m m' h = (b, refl, ap (λ (o : Outcome). o.0) h)
added_cases (failed e) m m' h = cc (ap (λ (o : Outcome). o.1) h)

apply_option-IsApplied :
    (o : CliOption) (m m' : ConfigManager)
    → apply_option o m ≡ (m', none)
    → IsApplied (given_of o) m m'
unfolding apply_option
apply_option-IsApplied (port s) m m' h =
    let (n, good, same) = override-cases stoul_u16 invalid_port set_port s m m' h in
    subst (IsApplied (given_of (port s)) m) same (
      unfold set_port in
      record {
        port = (n, good, refl);
        ssl_port = refl;
        threads = refl;
        bind_address = refl;
        backends = refl;
      })
apply_option-IsApplied (ssl_port s) m m' h =
    let (n, good, same) = override-cases stoul_u16 invalid_ssl_port set_ssl_port s m m' h in
    subst (IsApplied (given_of (ssl_port s)) m) same (
      unfold set_ssl_port in
      record {
        port = refl;
        ssl_port = (n, good, refl);
        threads = refl;
        bind_address = refl;
        backends = refl;
      })
apply_option-IsApplied (threads s) m m' h =
    let (n, good, same) = override-cases stoul invalid_threads set_threads s m m' h in
    subst (IsApplied (given_of (threads s)) m) same (
      unfold set_threads in
      record {
        port = refl;
        ssl_port = refl;
        threads = (n, good, refl);
        bind_address = refl;
        backends = refl;
      })
apply_option-IsApplied (bind_address s) m m' h =
    subst (IsApplied (given_of (bind_address s)) m) (ap (λ (o : Outcome). o.0) h) (
      unfold set_bind_address in
      record {
        port = refl;
        ssl_port = refl;
        threads = refl;
        bind_address = (s, refl, refl);
        backends = refl;
      })
apply_option-IsApplied (backend s) m m' h =
    let (b, good, same) = added_cases (parse_backend s) m m' h in
    subst (IsApplied (given_of (backend s)) m) same (record {
      port = refl;
      ssl_port = refl;
      threads = refl;
      bind_address = refl;
      backends = (b, good, refl);
    })
apply_option-IsApplied unknown m m' h =
    subst (IsApplied no_values m) (ap (λ (o : Outcome). o.0) h) (none-IsApplied m)

apply_argument-read :
    (arg : Text) (next : Option Text) (m : ConfigManager)
    → apply_argument arg next m ≡ (apply_option (read arg next).0 m, (read arg next).1)
unfolding apply_argument read apply_option
apply_argument-read arg next m = elim (Bool-cases (one_of arg (codes "--help" ∷ codes "-h" ∷ []))) [
  | inl h ↦ rw h refl
  | inr h ↦ elim (Bool-cases (one_of arg (codes "--config" ∷ codes "-c" ∷ []))) [
    | inl c ↦ rw h (rw c refl)
    | inr c ↦
        elim (Bool-cases (starts_with (codes "--config=") arg || starts_with (codes "-c=") arg)) [
          | inl p ↦ rw h (rw c (rw p refl))
          | inr p ↦ rw h (rw c (rw p refl))
        ]
  ]
]

pub then_do_cases :
    (o : Outcome) (next : ConfigManager → Outcome) (m' : ConfigManager)
    → (o then_do next) ≡ (m', none)
    → (m : ConfigManager) × (o ≡ (m, none)) × (next m ≡ (m', none))
then_do_cases (m, none) next m' h = (m, refl, h)
then_do_cases (m, some e) next m' h = cc (ap (λ (o : Outcome). o.1) h)

given_flag :
    (args : List Text) (a b : Bool) → (head args ≡ none) ⊎ (a ≡ b) → given a args ≡ given b args
given_flag [] a b h = refl
given_flag (arg ∷ args) a b (inl e) = absurd cc
given_flag (arg ∷ args) a b (inr e) = ap (λ skip. given skip (arg ∷ args)) e

-- Where the loop ends without an exception, all that the arguments give is applied, in their order.
pub apply_arguments-IsApplied :
    (args : List Text) (skip : Bool) (m m' : ConfigManager)
    → apply_arguments skip args m ≡ (m', none)
    → IsApplied (given skip args) m m'
apply_arguments-IsApplied [] skip m m' h =
    subst (IsApplied no_values m) (ap (λ (o : Outcome). o.0) (sym (apply_arguments-nil skip m) ∙ h))
      (none-IsApplied m)
apply_arguments-IsApplied (arg ∷ args) true m m' h =
    apply_arguments-IsApplied args false m m' (sym (apply_arguments-true arg args m) ∙ h)
apply_arguments-IsApplied (arg ∷ args) false m m' h =
    let (option, taken) = read arg (head args) in
    let (table, flag) = read_lem arg (head args) in
    let step =
      ap (λ (r : Outcome × Bool). r.0 then_do apply_arguments r.1 args)
        (apply_argument-read arg (head args) m) in
    let (m1, here, there) =
      then_do_cases (apply_option option m) (apply_arguments taken args) m'
        (sym step ∙ sym (apply_arguments-false arg args m) ∙ h) in
    both-IsApplied (own_values arg (head args)) (given (one_of arg value_names) args) m m1 m'
      (rw table (apply_option-IsApplied option m m1 here))
      (rw (given_flag args (one_of arg value_names) taken flag)
        (apply_arguments-IsApplied args taken m1 m' there))
