-- ===== src/Config/Arguments.antt =====
-- The command line's arguments (src/config/config.cpp) as they are recorded and applied: each leaves the
-- recorded settings in force.
use ntonix.Common.{
  ℕ, ◌≡◌, refl, ap, Bool, true, false, ◌||◌, List, [], ◌∷◌, Option, none, some, Text, codes,
  starts_with, if_intro, option_intro,
}
use ntonix.Config.CommandLine.{
  set_port, set_ssl_port, set_threads, CliOption, port, ssl_port, threads, bind_address, backend,
  unknown, classify, apply_option, apply_argument, apply_arguments, one_of, head,
}
use ntonix.Config.Manager.{
  ConfigManager, Outcome, returns, throws, ◌then_do◌, add_backends, override, override_text,
}
use ntonix.Config.Parse.{stoul, stoul_u16, Parsed, parsed, failed, parse_backend}
use ntonix.Config.{BackendConfig, ConfigError, invalid_port, invalid_ssl_port, invalid_threads}

-- The setting is the one that the command line gave, if it gave one.
abbrev pub Wins {ℓ} : {A : Type ℓ} → Option A → A → Type ℓ
Wins none a = Unit
Wins (some b) a = a ≡ b

pub record HasCliSettings (m : ConfigManager) : Type 0 where
  pub port : Wins m.cli_port m.config.server.port
  pub ssl_port : Wins m.cli_ssl_port m.config.server.ssl_port
  pub threads : Wins m.cli_threads m.config.server.threads
  pub bind_address : Wins m.cli_bind_address m.config.server.bind_address

abbrev pub CliRecord : Type 0
CliRecord = Option ℕ × Option ℕ × Option ℕ × Option Text

abbrev pub cli : ConfigManager → CliRecord
cli m = (m.cli_port, m.cli_ssl_port, m.cli_threads, m.cli_bind_address)

-- No command line has been read.
abbrev pub HasNoCli : ConfigManager → Type 0
HasNoCli m = cli m ≡ (none, none, none, none)

module _ {ℓ} (P : ConfigManager → Type ℓ) where
  pub then_do_intro :
      (o : Outcome) (next : ConfigManager → Outcome)
      → P o.0
      → ((m : ConfigManager) → P m → P (next m).0)
      → P (o then_do next).0
  then_do_intro (m, none) next h k = k m h
  then_do_intro (m, some e) next h k = h

  override_intro :
      (parse : Text → Option ℕ) (error : Text → ConfigError)
      (store : ℕ → ConfigManager → ConfigManager) (o : Option Text) (m : ConfigManager)
      → P m
      → ((n : ℕ) → P (store n m))
      → P (override parse error store o m).0
  override_intro parse error store none m h k = h
  override_intro parse error store (some s) m h k =
      option_intro (λ (r : Outcome). P r.0) (parse s) (m, some (error s)) (λ n. (store n m, none))
        (λ _. h) (λ n _. k n)

  override_text_intro :
      (store : Text → ConfigManager → ConfigManager) (o : Option Text) (m : ConfigManager)
      → P m
      → ((t : Text) → P (store t m))
      → P (override_text store o m).0
  override_text_intro store none m h k = h
  override_text_intro store (some t) m h k = k t

  parsed_intro :
      (r : Parsed BackendConfig) (m : ConfigManager)
      → P m
      → ((b : BackendConfig) → P (add_backends (b ∷ []) m))
      → P
          (elim r as (λ _. Outcome) [
            | parsed b ↦ returns (add_backends (b ∷ []) m)
            | failed e ↦ throws m e
          ]).0
  parsed_intro (parsed b) m h k = k b
  parsed_intro (failed e) m h k = h

pub no_cli-wins : (m : ConfigManager) → HasNoCli m → HasCliSettings m
no_cli-wins m h = record {
  port = rw (ap (λ (c : CliRecord). c.0) h) tt;
  ssl_port = rw (ap (λ (c : CliRecord). c.1) h) tt;
  threads = rw (ap (λ (c : CliRecord). c.2) h) tt;
  bind_address = rw (ap (λ (c : CliRecord). c.3) h) tt;
}

apply_option-wins :
    (o : CliOption) (m : ConfigManager) → HasCliSettings m → HasCliSettings (apply_option o m).0
unfolding apply_option
apply_option-wins (port s) m h =
    override_intro HasCliSettings stoul_u16 invalid_port set_port (some s) m h (λ n. record {
      port = refl;
      ssl_port = h.ssl_port;
      threads = h.threads;
      bind_address = h.bind_address;
    })
apply_option-wins (ssl_port s) m h =
    override_intro HasCliSettings stoul_u16 invalid_ssl_port set_ssl_port (some s) m h (λ n.
      record { port = h.port; ssl_port = refl; threads = h.threads; bind_address = h.bind_address })
apply_option-wins (threads s) m h =
    override_intro HasCliSettings stoul invalid_threads set_threads (some s) m h (λ n. record {
      port = h.port;
      ssl_port = h.ssl_port;
      threads = refl;
      bind_address = h.bind_address;
    })
apply_option-wins (bind_address s) m h = record {
  port = h.port;
  ssl_port = h.ssl_port;
  threads = h.threads;
  bind_address = refl;
}
apply_option-wins (backend s) m h = parsed_intro HasCliSettings (parse_backend s) m h (λ b. record {
  port = h.port;
  ssl_port = h.ssl_port;
  threads = h.threads;
  bind_address = h.bind_address;
})
apply_option-wins unknown m h = h

apply_argument-wins :
    (arg : Text) (next : Option Text) (m : ConfigManager)
    → HasCliSettings m
    → HasCliSettings (apply_argument arg next m).0.0
unfolding apply_argument
apply_argument-wins arg next m h =
    if_intro (λ (r : Outcome × Bool). HasCliSettings r.0.0)
      (one_of arg (codes "--help" ∷ codes "-h" ∷ [])) (λ _. h)
      λ _.
        if_intro (λ (r : Outcome × Bool). HasCliSettings r.0.0)
          (one_of arg (codes "--config" ∷ codes "-c" ∷ [])) (λ _. h)
          λ _.
            if_intro (λ (r : Outcome × Bool). HasCliSettings r.0.0)
              (starts_with (codes "--config=") arg || starts_with (codes "-c=") arg) (λ _. h)
              λ _. apply_option-wins (classify arg next).0 m h

pub apply_arguments-false :
    (arg : Text) (args : List Text) (m : ConfigManager)
    → apply_arguments false (arg ∷ args) m ≡ (
        (apply_argument arg (head args) m).0
        then_do apply_arguments (apply_argument arg (head args) m).1 args)
unfolding apply_arguments
apply_arguments-false arg args m = refl

pub apply_arguments-nil : (skip : Bool) (m : ConfigManager) → apply_arguments skip [] m ≡ returns m
unfolding apply_arguments
apply_arguments-nil skip m = refl

pub apply_arguments-true :
    (arg : Text) (args : List Text) (m : ConfigManager)
    → apply_arguments true (arg ∷ args) m ≡ apply_arguments false args m
unfolding apply_arguments
apply_arguments-true arg args m = refl

pub apply_arguments-wins :
    (args : List Text) (skip : Bool) (m : ConfigManager)
    → HasCliSettings m
    → HasCliSettings (apply_arguments skip args m).0
apply_arguments-wins [] skip m h = rw (apply_arguments-nil skip m) h
apply_arguments-wins (arg ∷ args) true m h =
    rw (apply_arguments-true arg args m) (apply_arguments-wins args false m h)
apply_arguments-wins (arg ∷ args) false m h = rw (apply_arguments-false arg args m) (
    then_do_intro HasCliSettings (apply_argument arg (head args) m).0
      (apply_arguments (apply_argument arg (head args) m).1 args)
      (apply_argument-wins arg (head args) m h)
      (λ m' h'. apply_arguments-wins args (apply_argument arg (head args) m).1 m' h'))
