-- ===== src/Importer/Tests.antt =====
-- The result on imports at a concrete input.
use portato.Prelude.{
  ◌≡◌, refl, none, [], ◌∷◌, lit, text_eq, is_space, trim_left, trim_right, trim_space, split_last,
  split_first, contains_char,
}
use portato.Prelude.Decimal.{atoi, itoa, itoa_ℕ, digits_value, digits_fuel}
use portato.Config.Addr.{
  split_host_port, join_host_port, normalize_addr_port, normalize_remote_addr, listen_addr,
  remote_listen_addr,
}
use portato.Config.Names.{valid}
use portato.Config.Ssh.{parse_ssh_explicit}
use portato.Config.Prepare.{Env, resolve_tuber, lookup_alias, matched}
use portato.Forward.Fixtures.{config}
use portato.Importer.Plan.{
  Candidate, Plan, planned, valid_port, split_bind, declared_port, sanitize_from, sanitize_name,
  next_name, tuber_name, coverage_key, resolve_ssh_host, tuber_key, covered_by, taken_names,
  candidate_key, plan_from, plan_import,
}
use portato.Importer.Plan.Imports.{IsSound, plan_import-IsSound}

abbrev env : Env
env = record {
  current_user = lit "me";
  home = lit "/home/me";
  expand_tilde = λ s. s;
  ssh_config = none;
}

abbrev candidate : Candidate
candidate = record { ssh_host = lit "Db"; type = lit "local"; local = lit "70"; remote = lit "x:1" }

abbrev plan : Plan
plan = record { add = planned candidate (lit "db-70") ∷ []; skipped = [] }

candidate-planned : plan_import env config (candidate ∷ []) ≡ valid plan
unfolding plan_import plan_from covered_by tuber_key candidate_key resolve_ssh_host coverage_key
    tuber_name next_name sanitize_name sanitize_from declared_port split_bind valid_port
    resolve_tuber lookup_alias matched parse_ssh_explicit listen_addr remote_listen_addr
    normalize_addr_port normalize_remote_addr split_host_port join_host_port atoi itoa itoa_ℕ
    digits_value digits_fuel is_space trim_left trim_right trim_space split_last split_first
    contains_char text_eq
candidate-planned = refl

plan_import-IsSound_example :
    IsSound env (covered_by env config.tubers) (taken_names config.tubers) (candidate ∷ []) plan
plan_import-IsSound_example = plan_import-IsSound env config (candidate ∷ []) plan candidate-planned
