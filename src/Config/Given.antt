-- ===== src/Config/Given.antt =====
-- The values that the command line's arguments (src/config/config.cpp) give to each option, by a table of the
-- options' names and prefixes.
use ntonix.Common.{
  Bool, true, false, List, [], ◌∷◌, ◌++◌, Option, none, some, if◌then◌else◌, Text, codes,
}
use ntonix.Config.CommandLine.{
  CliOption, port, ssl_port, threads, bind_address, backend, unknown, after_prefix, one_of, head,
}

-- The values that arguments give to each option, in their order
pub record Values : Type 0 where
  pub ports : List Text
  pub ssl_ports : List Text
  pub thread_counts : List Text
  pub bind_addresses : List Text
  pub backends : List Text

abbrev pub no_values : Values
no_values = record {
  ports = [];
  ssl_ports = [];
  thread_counts = [];
  bind_addresses = [];
  backends = [];
}

abbrev pub both : Values → Values → Values
both v w = record {
  ports = v.ports ++ w.ports;
  ssl_ports = v.ssl_ports ++ w.ssl_ports;
  thread_counts = v.thread_counts ++ w.thread_counts;
  bind_addresses = v.bind_addresses ++ w.bind_addresses;
  backends = v.backends ++ w.backends;
}

abbrev list_of : Option Text → List Text
list_of none = []
list_of (some t) = t ∷ []

-- The value that an argument, with the one after it, gives to an option of these names: the one after it
-- if it is a name, or what follows the prefix
abbrev pub own : List Text → Text → Text → Option Text → List Text
own names prefix arg next =
    if one_of arg names then list_of next else list_of (after_prefix prefix arg)

abbrev pub port_names : List Text
port_names = codes "--port" ∷ codes "-p" ∷ []

abbrev pub ssl_port_names : List Text
ssl_port_names = codes "--ssl-port" ∷ []

abbrev pub threads_names : List Text
threads_names = codes "--threads" ∷ codes "-t" ∷ []

abbrev pub bind_names : List Text
bind_names = codes "--bind" ∷ codes "-b" ∷ []

abbrev pub backends_names : List Text
backends_names = codes "--backends" ∷ []

abbrev pub own_values : Text → Option Text → Values
own_values arg next = record {
  ports = own port_names (codes "--port=") arg next;
  ssl_ports = own ssl_port_names (codes "--ssl-port=") arg next;
  thread_counts = own threads_names (codes "--threads=") arg next;
  bind_addresses = own bind_names (codes "--bind=") arg next;
  backends = own backends_names (codes "--backends=") arg next;
}

-- The names after which the next argument is a value
abbrev pub value_names : List Text
value_names =
    codes "--config"
    ∷ codes "-c"
    ∷ codes "--port"
    ∷ codes "-p"
    ∷ codes "--ssl-port"
    ∷ codes "--threads"
    ∷ codes "-t"
    ∷ codes "--bind"
    ∷ codes "-b"
    ∷ codes "--backends"
    ∷ []

-- The values of a list of arguments; the flag says that the first one is the value of the one before it.
abbrev pub given : Bool → List Text → Values
given skip [] = no_values
given true (arg ∷ args) = given false args
given false (arg ∷ args) = both (own_values arg (head args)) (given (one_of arg value_names) args)

-- The same of an option that was read
abbrev pub given_of : CliOption → Values
given_of (port s) = record no_values { ports = s ∷ [] }
given_of (ssl_port s) = record no_values { ssl_ports = s ∷ [] }
given_of (threads s) = record no_values { thread_counts = s ∷ [] }
given_of (bind_address s) = record no_values { bind_addresses = s ∷ [] }
given_of (backend s) = record no_values { backends = s ∷ [] }
given_of unknown = no_values
