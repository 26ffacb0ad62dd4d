-- ===== src/Config/Document/Fixtures.antt =====
-- A configuration file of two tubers as a document, and a yaml that reads and prints the fields which
-- its entries have, for the tests.
use portato.Prelude.{false, none, some, Option, List, [], ◌∷◌, Text, lit, map}
use portato.Prelude.Int.{pos}
use portato.Config.Types.{Defaults, Tuber}
use portato.Config.Names.{valid}
use portato.Config.Prepare.{Env}
use portato.Config.Document.{
  Node, node, no_nodes, mapping, sequence, document, value, content, scalar_node, with_content,
  pair_value,
}
use portato.Config.Document.Loaded.{Yaml}

abbrev key : Text → Node
key s = scalar_node (lit "!!str") s

abbrev pub defaults : Defaults
defaults = record {
  identity = [];
  known_hosts = [];
  accept_new_hosts = false;
  socks5_user = [];
  socks5_password = [];
  identity_passphrase_store = false;
  password_auth = none;
  ssh_password_store = false;
  update_check = none;
  log = record { max_size_mb = pos 5; max_age_days = pos 7; retain = pos 3 };
}

abbrev pub tuber : Text → Text → Text → Tuber
tuber name local ssh = record {
  name = name;
  type = [];
  local = local;
  remote = lit "db:5432";
  ssh = ssh;
  identity = [];
  enabled = false;
  tags = [];
  jump = [];
  password_auth = none;
  socks5_user = [];
  socks5_password = [];
  user = [];
  host = [];
  port = pos 0;
  jumps = [];
  ssh_identity = [];
}

abbrev text_of : Option Node → Text
text_of none = []
text_of (some n) = value n

abbrev field : Text → Node → Text
field k n = text_of (pair_value k (content n))

abbrev pub print : Tuber → Node
print t =
    with_content
      (key (lit "name")
        ∷ key t.name
        ∷ key (lit "local")
        ∷ key t.local
        ∷ key (lit "ssh")
        ∷ key t.ssh
        ∷ [])
      (node mapping (lit "!!map") [] [] no_nodes)

-- Every tuber here has the same remote end.
abbrev pub yaml : Yaml
yaml = record {
  read_tuber =
      λ n. valid (tuber (field (lit "name") n) (field (lit "local") n) (field (lit "ssh") n));
  read_defaults = λ o. valid defaults;
  print_tuber = λ t. valid (print t);
}

abbrev pub db : Tuber
db = tuber (lit "db") (lit "5432") (lit "me@b")

abbrev pub web : Tuber
web = tuber (lit "web") (lit "8080") (lit "me@b:2222")

abbrev pub file_of : List Tuber → Node
file_of ts =
    with_content
      (with_content
          (key (lit "tubers")
            ∷ with_content (map print ts) (node sequence (lit "!!seq") [] [] no_nodes)
            ∷ [])
          (node mapping (lit "!!map") [] [] no_nodes)
        ∷ [])
      (node document [] [] (lit "# tubers") no_nodes)

abbrev pub env : Env
env = record {
  current_user = lit "me";
  home = lit "/home/me";
  expand_tilde = λ s. s;
  ssh_config = none;
}
