-- ===== src/Gateway/StartTests.antt =====
-- The theorem on the start of src/main.cpp with a TLS server whose certificate cannot be read.
use ntonix.Common.{ℕ, ◌≡◌, refl, true, false, [], ◌∷◌, none, some, codes}
use ntonix.Config.{Config, default_config}
use ntonix.Gateway.Main.{Process, start_all}
use ntonix.Gateway.Started.{AreChecked, start_all-IsServing}
use ntonix.Gateway.Wiring.{make_server_config}
use ntonix.Server.Acceptor.{OpenOutcome}
use ntonix.Server.HttpServer.{StartOutcome, new_server}
use ntonix.Server.HttpServer
use ntonix.Server.SslContext.{Context, Environment}
use ntonix.Server.States.{IsServing}

abbrev settings : Config
settings = record default_config {
  backends = record { host = codes "gpu"; port = 8001; weight = 1 } ∷ [];
  ssl = record { cert_file = codes "cert.pem"; key_file = codes "key.pem"; enabled = true };
}

abbrev no_files : Environment
no_files = record {
  exists_and_opens = λ file. false;
  certificate_error = λ file. none;
  private_key_error = λ file password. none;
  verify_error = λ file. none;
  dh_error = λ file. none;
  is_cipher_list = λ ciphers. true;
  is_ciphersuites = λ suites. true;
}

abbrev context : Context
context = record {
  min_version = none;
  max_version = none;
  no_tlsv1 = false;
  no_tlsv1_1 = false;
  password = none;
  certificate = none;
  private_key = none;
  verify_file = none;
  cipher_list = none;
  ciphersuites = none;
  session_cache_size = none;
  dh_file = none;
  verifies_clients = false;
  has_sni_callback = false;
}

abbrev opens : OpenOutcome
opens = record { address_error = none; open_error = none; bind_error = none; listen_error = none }

abbrev no_errors : StartOutcome
no_errors = record { signals_error = none; opening = opens; threads_error = none }

starts :
    (HttpServer.start no_errors true true
      (new_server {Socket = ℕ} (make_server_config 8 settings))).1
    ≡ none
unfolding HttpServer.start new_server
starts = refl

start_all-IsServing_example :
    (p : Process ℕ) × (start_all no_files context 8 settings 0 no_errors opens ≡ some p)
    × IsServing p.server
    × AreChecked true p.gateway
start_all-IsServing_example =
    start_all-IsServing no_files context 8 settings 0 no_errors opens starts
