-- ===== src/Config/Precedence.antt =====
-- Whose settings win in `load` (src/config/config.cpp): the command line's, over the environment's and the
-- file's.
use ntonix.Common.{◌≡◌, ap, sym, none, some, if◌then◌else◌, Text, is_empty}
use ntonix.Config.CommandLine.{check}
use ntonix.Config.Manager.{
  Files, Environment, ConfigManager, Outcome, returns, ◌then_do◌, load_from_file,
  apply_environment_overrides,
}
use ntonix.Config.{validate}
use ntonix.Config.Arguments.{CliRecord, cli}

-- Storing a configuration leaves the record of the command line alone.
module _ (files : Files) (env : Environment) (c : CliRecord) where
  Keeps : ConfigManager → Type 0
  Keeps m = cli m ≡ c

pub check_lem :
    (o : Outcome) (m : ConfigManager)
    → (o then_do check) ≡ (m, none)
    → (o.0 ≡ m) × (validate m.config ≡ none)
check_lem (m', none) m h = (
  ap (λ (o : Outcome). o.0) h,
  rw (sym (ap (λ (o : Outcome). o.0) h)) (ap (λ (o : Outcome). o.1) h),
)
check_lem (m', some e) m h = cc (ap (λ (o : Outcome). o.1) h)

module _ (files : Files) (env : Environment) where
  before_cli : Text → ConfigManager → Outcome
  before_cli path m =
      (if is_empty path then returns m else load_from_file files path m)
      then_do apply_environment_overrides files env
