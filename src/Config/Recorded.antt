-- ===== src/Config/Recorded.antt =====
-- What `apply_cli_overrides` (src/config/config.cpp) has recorded of the values that the arguments give, and
-- the backends that it has added, when it does not throw.
use mathlib.Core.List.{append_assoc, append-nil}
use ntonix.Common.{
  ◌≡◌, ◌⊎◌, refl, ap, sym, ◌∙◌, false, List, [], ◌∷◌, ◌++◌, map, Option, none, some, Text, inl, inr,
}
use ntonix.Config.Arguments.{CliRecord, HasNoCli}
use ntonix.Config.CommandLine.{apply_cli_overrides}
use ntonix.Config.Given.{Values, given}
use ntonix.Config.Manager.{ConfigManager}
use ntonix.Config.Parse.{stoul, stoul_u16, parsed, parse_backend}
use ntonix.Config.{BackendConfig}
use ntonix.Config.Applied.{Recorded, Appended, apply_arguments-IsApplied}

-- A setting is recorded if and only if values are given for it, and then as the last of them.
abbrev pub IsLast {ℓ} : {A : Type ℓ} → (Text → Option A) → List Text → Option A → Type ℓ
IsLast {A = A} parse values recorded =
    ((values ≡ []) × (recorded ≡ none))
    ⊎ ((before : List Text) × (value : Text) × (a : A) × (values ≡ before ++ value ∷ [])
        × (parse value ≡ some a)
        × (recorded ≡ some a))

-- The backends given are read, and stand at the end of the list.
abbrev pub AtEnd : List Text → List BackendConfig → Type 0
AtEnd values backends =
    (others : List BackendConfig) × (given_ones : List BackendConfig) × (map parse_backend values
      ≡ map parsed given_ones)
    × (backends ≡ others ++ given_ones)

Recorded-last :
    {A : Type 0} (parse : Text → Option A) (o after : Option A) (ss : List Text)
    → Recorded parse o ss after
    → ((ss ≡ []) × (after ≡ o))
      ⊎ ((before : List Text) × (value : Text) × (a : A) × (ss ≡ before ++ value ∷ [])
          × (parse value ≡ some a)
          × (after ≡ some a))
Recorded-last parse o after [] h = inl (refl, h)
Recorded-last parse o after (s ∷ ss) (a, e, h) = elim (Recorded-last parse (some a) after ss h) [
  | inl (empty, same) ↦ inr ([], s, a, ap (◌∷◌ s) empty, e, same)
  | inr (before, value, b, split, good, same) ↦
      inr (s ∷ before, value, b, ap (◌∷◌ s) split, good, same)
]

Appended-end :
    (before after : List BackendConfig) (ss : List Text)
    → Appended before ss after
    → (bs : List BackendConfig) × (map parse_backend ss ≡ map parsed bs) × (after ≡ before ++ bs)
Appended-end before after [] h = ([], refl, h ∙ sym (append-nil before))
Appended-end before after (s ∷ ss) (b, e, h) =
    let (bs, read_so, same) = Appended-end (before ++ b ∷ []) after ss h in
    (
      b ∷ bs,
      ap (λ r. r ∷ map parse_backend ss) e ∙ ap (◌∷◌ (parsed b)) read_so,
      same ∙ append_assoc before (b ∷ []) bs,
    )

-- The arguments are what is recorded, of the four settings, and what is added, of the backends.
pub record HasArguments (args : List Text) (m : ConfigManager) : Type 0 where
  pub port : IsLast stoul_u16 (given false args).ports m.cli_port
  pub ssl_port : IsLast stoul_u16 (given false args).ssl_ports m.cli_ssl_port
  pub threads : IsLast stoul (given false args).thread_counts m.cli_threads
  pub bind_address : IsLast some (given false args).bind_addresses m.cli_bind_address
  pub backends : AtEnd (given false args).backends m.config.backends

pub apply_cli_overrides-HasArguments :
    (args : List Text) (m m' : ConfigManager)
    → HasNoCli m
    → apply_cli_overrides args m ≡ (m', none)
    → HasArguments args m'
unfolding apply_cli_overrides
apply_cli_overrides-HasArguments args m m' fresh h =
    let p = apply_arguments-IsApplied args false m m' h in
    let v : Values = given false args in
    let (bs, read_so, same) =
      Appended-end m.config.backends m'.config.backends v.backends p.backends in
    record {
      port =
          Recorded-last stoul_u16 none m'.cli_port v.ports
            (rw (sym (ap (λ (c : CliRecord). c.0) fresh)) p.port);
      ssl_port =
          Recorded-last stoul_u16 none m'.cli_ssl_port v.ssl_ports
            (rw (sym (ap (λ (c : CliRecord). c.1) fresh)) p.ssl_port);
      threads =
          Recorded-last stoul none m'.cli_threads v.thread_counts
            (rw (sym (ap (λ (c : CliRecord). c.2) fresh)) p.threads);
      bind_address =
          Recorded-last some none m'.cli_bind_address v.bind_addresses
            (rw (sym (ap (λ (c : CliRecord). c.3) fresh)) p.bind_address);
      backends = (m.config.backends, bs, read_so, same);
    }
