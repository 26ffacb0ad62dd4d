-- ===== src/Config/Prepare/Idempotent.antt =====
-- Preparing a prepared configuration again: prepareWith of internal/config/config.go, twice.
pub mod Tubers
use portato.Prelude.{
  all, trim_left, trim_right, is_space, ◌≡◌, refl, sym, ap, ◌∙◌, subst, Bool, true, false, not,
  ◌&&◌, ◌||◌, Option, none, some, List, [], ◌∷◌, Text, is_empty, trim_space, ◌⊎◌, if◌then◌else◌,
  arith, Bool-cases, inl, inr,
}
use portato.Config.Types.{Config, Tuber, Hop}
use portato.Config.Ssh.{Target, parse_ssh_explicit, parse_jump_chain}
use portato.Config.Names.{
  ConfigError, Checked, valid, failed, then_check, then_check-valid, valid-inj,
}
use portato.Config.Prepare.{
  Env, AliasValues, matched, lookup_alias, apply_alias, proxy_jumps, resolve_tuber, with_target,
  explicit_user, explicit_port, with_type, prepare_tubers, prepare,
}
use portato.Config.Prepare.Idempotent.Tubers.{resolve_tuber-settled, resolve_tuber-kept}

parses :
    (usr s : Text)
    → is_empty (trim_space s) ≡ false
    → (p : Target) × (parse_ssh_explicit usr s ≡ some p)
unfolding parse_ssh_explicit
parses usr s h = rw h (_, refl)

with_type-type : (t : Tuber) → is_empty (trim_space (with_type t).type) ≡ false
unfolding trim_space trim_left trim_right is_space
with_type-type t = elim (Bool-cases (is_empty (trim_space t.type))) [
  | inl h ↦ rw h refl
  | inr h ↦ rw h h
]

with_type-set : (t : Tuber) → is_empty (trim_space t.type) ≡ false → with_type t ≡ t
with_type-set t h = rw h refl

with_type-ssh : (t : Tuber) → (with_type t).ssh ≡ t.ssh
with_type-ssh t = elim (Bool-cases (is_empty (trim_space t.type))) [
  | inl h ↦ rw h refl
  | inr h ↦ rw h refl
]

pub with_type-name : (t : Tuber) → (with_type t).name ≡ t.name
with_type-name t = elim (Bool-cases (is_empty (trim_space t.type))) [
  | inl h ↦ rw h refl
  | inr h ↦ rw h refl
]

pub prepare_tuber-settled :
    (env : Env) (t u : Tuber)
    → is_empty (trim_space t.ssh) ≡ false
    → resolve_tuber env (with_type t) ≡ valid u
    → resolve_tuber env (with_type u) ≡ valid u
prepare_tuber-settled env t u h done =
    let (p, parsed) =
      parses env.current_user (with_type t).ssh
        (ap (λ s. is_empty (trim_space s)) (with_type-ssh t) ∙ h) in
    ap (resolve_tuber env) (
      with_type-set u (
        ap (λ s. is_empty (trim_space s)) (resolve_tuber-kept env (with_type t) u p parsed done)
        ∙ with_type-type t))
    ∙ resolve_tuber-settled env (with_type t) u p parsed done

abbrev pub has_target : Tuber → Bool
has_target t = not (is_empty (trim_space t.ssh))

prepare_tubers-settled :
    (env : Env) (ts us : List Tuber)
    → all has_target ts ≡ true
    → prepare_tubers env ts ≡ valid us
    → prepare_tubers env us ≡ valid us
unfolding prepare_tubers
prepare_tubers-settled env [] us h done =
    subst (λ x. prepare_tubers env x ≡ valid x) (valid-inj done) refl
prepare_tubers-settled env (t ∷ ts) us h done =
    let (u, first, next) =
      then_check-valid (resolve_tuber env (with_type t))
        (λ u. then_check (prepare_tubers env ts) (λ vs. valid (u ∷ vs))) us done in
    let (vs, rest, both) =
      then_check-valid (prepare_tubers env ts) (λ vs. valid (u ∷ vs)) us next in
    subst (λ x. prepare_tubers env x ≡ valid x) (valid-inj both)
      (rw
        (
          prepare_tuber-settled env t u (ground arith) first,
          prepare_tubers-settled env ts vs (ground arith) rest,
        )
        refl)

-- Preparing a configuration settles it: where every tuber has an ssh target, preparing the result
-- again, with the same ssh configuration, gives the same configuration. So an edit, which prepares
-- a copy of a prepared configuration, leaves the derived fields of the other tubers as they are.
pub prepare-settled :
    (env : Env) (c d : Config)
    → all has_target c.tubers ≡ true
    → prepare env c ≡ valid d
    → prepare env d ≡ valid d
unfolding prepare
prepare-settled env c d h done =
    let (us, all_done, made) =
      then_check-valid (prepare_tubers env c.tubers) (λ ts. valid (record c { tubers = ts })) d
        done in
    subst (λ (x : Config). prepare env x ≡ valid x) (valid-inj made)
      (rw (prepare_tubers-settled env c.tubers us h all_done) refl)
