-- ===== src/Config/Document/Tests.antt =====
-- The edits of a document on a concrete file.
use portato.Prelude.{
  ℕ, ◌≡◌, ◌∙◌, refl, true, Option, [], ◌∷◌, all, Text, lit, text_eq, split_last, split_first,
  trim_space, trim_left, trim_right, is_space, contains_char,
}
use portato.Prelude.Decimal.{atoi, digits_value}
use portato.Config.Addr.{validate_host_port, split_host_port}
use portato.Config.Ssh.{parse_ssh_explicit}
use portato.Config.Validate.{
  validate, validate_from, validate_tuber, validate_jump, validate_tags, check_tags, check_tag,
}
use portato.Config.Prepare.{prepare, prepare_tubers, resolve_tuber, lookup_alias, matched}
use portato.Config.Prepare.Idempotent.{has_target}
use portato.Config.Patch.{prepare_and_validate, with_tuber_added}
use portato.Prelude.Int.{pos}
use portato.Config.Types.{Config, Tuber}
use portato.Config.Names.{valid, valid_name}
use portato.Config.Document.{Node, pair_value, mapping_value, document_root, tuber_name}
use portato.Config.Document.Edited.{add, move, edited}
use portato.Config.Document.Entries.{edit_node}
use portato.Config.Document.Loaded.{load, ReadsAs}
use portato.Config.Document.Refines.{name_of}
use portato.Config.Document.Reloads.{
  RefinesEdit, Holds, load-Holds, or_file, edit_node-RefinesEdit, load-edited,
}
use portato.Config.Document.Fixtures.{yaml, env, db, web, file_of, print, tuber, defaults}

abbrev pub file : Node
file = file_of (db ∷ web ∷ [])

abbrev pub logs : Tuber
logs = tuber (lit "logs") (lit "9000") (lit "me@c")

pub file-Holds : Holds yaml file defaults (db ∷ web ∷ [])
unfolding document_root mapping_value pair_value text_eq tuber_name
file-Holds = (refl, refl, (print db ∷ print web ∷ [], refl, ((refl, refl), ((refl, refl), tt))))

edit_node-RefinesEdit_example :
    RefinesEdit yaml defaults
      (edit_node (move (lit "db") (pos 1)) file)
      (edited name_of (move (lit "db") (pos 1)) (db ∷ web ∷ []))
edit_node-RefinesEdit_example =
    edit_node-RefinesEdit yaml defaults file (db ∷ web ∷ []) (move (lit "db") (pos 1))
      (move (lit "db") (pos 1)) file-Holds (refl, refl)

abbrev pub settled : Tuber → ℕ → Text → Tuber
settled t port host = record t { type = lit "local"; user = lit "me"; host = host; port = pos port }

abbrev pub loaded_config : Config
loaded_config = record {
  defaults = defaults;
  tubers = settled db 22 (lit "b") ∷ settled web 2222 (lit "b") ∷ [];
}

abbrev pub with_logs : Config
with_logs = record loaded_config {
  tubers = settled db 22 (lit "b") ∷ settled web 2222 (lit "b") ∷ settled logs 22 (lit "c") ∷ [];
}

file-prepared :
    prepare_and_validate (valid env) (record { defaults = defaults; tubers = db ∷ web ∷ [] })
    ≡ valid loaded_config
unfolding prepare_and_validate prepare prepare_tubers resolve_tuber lookup_alias matched
    parse_ssh_explicit trim_space trim_left trim_right is_space split_last validate validate_from
    validate_tuber validate_jump validate_tags check_tags check_tag valid_name text_eq split_first
    validate_host_port split_host_port contains_char atoi digits_value
file-prepared = refl

pub file-loads : load yaml (valid env) file ≡ valid loaded_config
file-loads = load-Holds yaml (valid env) file defaults (db ∷ web ∷ []) file-Holds ∙ file-prepared

pub logs-added : with_tuber_added (valid env) logs loaded_config ≡ valid with_logs
unfolding with_tuber_added prepare_and_validate prepare prepare_tubers resolve_tuber lookup_alias
    matched parse_ssh_explicit trim_space trim_left trim_right is_space split_last validate
    validate_from validate_tuber validate_jump validate_tags check_tags check_tag valid_name text_eq
    split_first validate_host_port split_host_port contains_char atoi digits_value
logs-added = refl

pub have_targets : all has_target (db ∷ web ∷ []) ≡ true
unfolding trim_space trim_left trim_right is_space
have_targets = refl

pub logs-reads : ReadsAs yaml (print logs) logs
unfolding pair_value mapping_value tuber_name text_eq
logs-reads = (refl, refl)

load-edited_example :
    (o : Option Node) × (edit_node (add (print logs)) file ≡ valid o)
    × (load yaml (valid env) (or_file file o) ≡ valid with_logs)
load-edited_example =
    load-edited yaml env file defaults (db ∷ web ∷ []) loaded_config with_logs (add (print logs))
      (add logs) file-Holds have_targets file-loads logs-reads logs-added
