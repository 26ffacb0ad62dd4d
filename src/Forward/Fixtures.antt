-- ===== src/Forward/Fixtures.antt =====
-- Configurations of two tubers, for the tests of the forwarding engine.
use portato.Prelude.{Bool, true, false, none, [], ◌∷◌, Text, lit}
use portato.Prelude.Int.{pos}
use portato.Config.Types.{Defaults, Tuber, Config}

abbrev pub defaults : Defaults
defaults = record {
  identity = lit "~/.ssh/id";
  known_hosts = [];
  accept_new_hosts = false;
  socks5_user = [];
  socks5_password = [];
  identity_passphrase_store = false;
  password_auth = none;
  ssh_password_store = false;
  update_check = none;
  log = record { max_size_mb = pos 5; max_age_days = pos 7; retain = pos 3 };
}

abbrev pub tuber : Text → Text → Bool → Tuber
tuber name local enabled = record {
  name = name;
  type = lit "local";
  local = local;
  remote = lit "10.0.0.5:5432";
  ssh = lit "me@bastion:22";
  identity = [];
  enabled = enabled;
  tags = lit "db" ∷ [];
  jump = [];
  password_auth = none;
  socks5_user = [];
  socks5_password = [];
  user = lit "me";
  host = lit "bastion";
  port = pos 22;
  jumps = [];
  ssh_identity = [];
}

abbrev pub db : Tuber
db = tuber (lit "db") (lit "5432") true

abbrev pub web : Tuber
web = tuber (lit "web") (lit "8080") false

abbrev pub config : Config
config = record { defaults = defaults; tubers = db ∷ web ∷ [] }

-- The first configuration without one tuber, and with another port for the other.
abbrev pub edited : Config
edited = record { defaults = defaults; tubers = tuber (lit "db") (lit "5433") true ∷ [] }
