-- ===== src/Config/Prepare/Idempotent/Tubers.antt =====
-- Resolving a resolved tuber again: resolveTuber of internal/config/config.go, twice.
use portato.Prelude.{
  ◌≡◌, refl, sym, ap, ◌∙◌, subst, not, ◌&&◌, ◌||◌, Option, none, some, List, is_empty, trim_space,
  ◌⊎◌, if◌then◌else◌, Bool-cases, inl, inr,
}
use portato.Config.Types.{Tuber, Hop}
use portato.Config.Ssh.{Target, parse_ssh_explicit, parse_jump_chain}
use portato.Config.Names.{ConfigError, Checked, valid, failed, then_check}
use portato.Config.Prepare.{
  Env, AliasValues, matched, lookup_alias, apply_alias, proxy_jumps, resolve_tuber, with_target,
  explicit_user, explicit_port,
}

-- The fields that resolveTuber fills from a parsed target and the values of its alias.
abbrev filled : Env → Target → AliasValues → Tuber → Tuber
filled env p v t =
    let t1 : Tuber = record t { user = p.user; host = p.host; port = p.port } in
    if matched v then apply_alias env v p.user_explicit p.port_explicit t1 else t1

abbrev finish : Env → AliasValues → Tuber → Checked Tuber
finish env v t =
    if not (is_empty (trim_space t.jump))
    then valid (record t { jumps = parse_jump_chain env.current_user t.jump })
    else if not (matched v) || is_empty v.proxy_jump
    then valid t
    else then_check (proxy_jumps env t.name v.proxy_jump)
        (λ hops. valid (record t { jumps = hops }))

resolve_tuber-finish :
    (env : Env) (t : Tuber) (p : Target)
    → parse_ssh_explicit env.current_user t.ssh ≡ some p
    → resolve_tuber env t
      ≡ finish env
          (lookup_alias env.ssh_config p.host)
          (filled env p (lookup_alias env.ssh_config p.host) t)
unfolding resolve_tuber
resolve_tuber-finish env t p parsed = rw parsed refl

abbrev with_jumps : Tuber → List Hop → Tuber
with_jumps t hops = record t { jumps = hops }

filled-twice :
    (env : Env) (p : Target) (v : AliasValues) (t : Tuber) (hops : List Hop)
    → filled env p v (with_jumps (filled env p v t) hops) ≡ with_jumps (filled env p v t) hops
unfolding apply_alias
filled-twice env p v t hops = elim (Bool-cases (matched v)) [
  | inr lacking ↦ rw lacking refl
  | inl known ↦ elim (Bool-cases (is_empty (trim_space t.identity) && not (is_empty v.identity))) [
    | inl set ↦ rw (known, set) refl
    | inr kept ↦ rw (known, kept) refl
  ]
]

-- The result of `finish` finishes as itself.
abbrev Settled : Env → AliasValues → Tuber → Tuber → Type 0
Settled env v t u = (hops : List Hop) × (u ≡ with_jumps t hops) × (finish env v u ≡ valid u)

settled :
    (env : Env) (v : AliasValues) (t u : Tuber) (hops : List Hop)
    → finish env v t ≡ valid (with_jumps t hops)
    → finish env v (with_jumps t hops) ≡ valid (with_jumps t hops)
    → finish env v t ≡ valid u
    → Settled env v t u
settled env v t u hops first again done =
    subst (λ x. Settled env v t x) (same (with_jumps t hops) u (sym first ∙ done))
      (hops, refl, again)
  where
    same : (a b : Tuber) → valid a ≡ valid b → a ≡ b
    same a b p = cc

abbrev set_jumps : Tuber → Checked (List Hop) → Checked Tuber
set_jumps t found = then_check found (λ hops. valid (with_jumps t hops))

finish-jumps :
    (env : Env) (v : AliasValues) (t u : Tuber) → finish env v t ≡ valid u → Settled env v t u
finish-jumps env v t u done = elim (Bool-cases (is_empty (trim_space t.jump))) [
  | inr own ↦
      settled env v t u (parse_jump_chain env.current_user t.jump) (rw own refl) (rw own refl) done
  | inl lacking ↦ elim (Bool-cases (not (matched v) || is_empty v.proxy_jump)) [
    | inl none_given ↦
        settled env v t u t.jumps (rw (lacking, none_given) refl) (rw (lacking, none_given) refl)
          done
    | inr given ↦ elim (checked (proxy_jumps env t.name v.proxy_jump)) [
      | inl (hops, found) ↦
          settled env v t u hops (rw (lacking, given, found) refl) (rw (lacking, given, found) refl)
            done
      | inr (e, bad) ↦ absurd (refused e (rw (lacking, given, bad) refl) done)
    ]
  ]
]
  where
    refused : (e : ConfigError) → finish env v t ≡ failed e → finish env v t ≡ valid u → ⊥
    refused e p q = cc

    checked :
        (c : Checked (List Hop))
        → ((hops : List Hop) × (c ≡ valid hops)) ⊎ ((e : ConfigError) × (c ≡ failed e))
    checked (valid hops) = inl (hops, refl)
    checked (failed e) = inr (e, refl)

filled-ssh : (env : Env) (p : Target) (v : AliasValues) (t : Tuber) → (filled env p v t).ssh ≡ t.ssh
unfolding apply_alias
filled-ssh env p v t = elim (Bool-cases (matched v)) [
  | inr lacking ↦ rw lacking refl
  | inl known ↦ rw known refl
]

-- The tuber before its hops are set, for a target that may not parse.
abbrev filled_from : Env → Option Target → AliasValues → Tuber → Tuber
filled_from env p v t =
    if matched v
    then apply_alias env v (explicit_user p) (explicit_port p) (with_target t p)
    else with_target t p

filled_from-name :
    (env : Env) (p : Option Target) (v : AliasValues) (t : Tuber)
    → (filled_from env p v t).name ≡ t.name
unfolding apply_alias
filled_from-name env none v t = elim (Bool-cases (matched v)) [
  | inr lacking ↦ rw lacking refl
  | inl known ↦ rw known refl
]
filled_from-name env (some p) v t = elim (Bool-cases (matched v)) [
  | inr lacking ↦ rw lacking refl
  | inl known ↦ rw known refl
]

pub resolve_tuber-name : (env : Env) (t u : Tuber) → resolve_tuber env t ≡ valid u → u.name ≡ t.name
unfolding resolve_tuber
resolve_tuber-name env t u done =
    let (hops, same, again) = finish-jumps env v (filled_from env p v t) u done in
    ap (λ (x : Tuber). x.name) same ∙ filled_from-name env p v t
  where
    p : Option Target
    p = parse_ssh_explicit env.current_user t.ssh

    v : AliasValues
    v = lookup_alias env.ssh_config (with_target t p).host

pub resolve_tuber-settled :
    (env : Env) (t u : Tuber) (p : Target)
    → parse_ssh_explicit env.current_user t.ssh ≡ some p
    → resolve_tuber env t ≡ valid u
    → resolve_tuber env u ≡ valid u
resolve_tuber-settled env t u p parsed done =
    let (hops, same, again) =
      finish-jumps env v (filled env p v t) u (sym (resolve_tuber-finish env t p parsed) ∙ done) in
    resolve_tuber-finish env u p (
      ap (parse_ssh_explicit env.current_user)
        (ap (λ (x : Tuber). x.ssh) same ∙ filled-ssh env p v t)
      ∙ parsed)
    ∙ ap (finish env v) (subst (λ x. filled env p v x ≡ x) (sym same) (filled-twice env p v t hops))
    ∙ again
  where
    v : AliasValues
    v = lookup_alias env.ssh_config p.host

filled-type :
    (env : Env) (p : Target) (v : AliasValues) (t : Tuber) → (filled env p v t).type ≡ t.type
unfolding apply_alias
filled-type env p v t = elim (Bool-cases (matched v)) [
  | inr lacking ↦ rw lacking refl
  | inl known ↦ rw known refl
]

pub resolve_tuber-kept :
    (env : Env) (t u : Tuber) (p : Target)
    → parse_ssh_explicit env.current_user t.ssh ≡ some p
    → resolve_tuber env t ≡ valid u
    → (u.type ≡ t.type)
resolve_tuber-kept env t u p parsed done =
    let (hops, same, again) =
      finish-jumps env v (filled env p v t) u (sym (resolve_tuber-finish env t p parsed) ∙ done) in
    ap (λ (x : Tuber). x.type) same ∙ filled-type env p v t
  where
    v : AliasValues
    v = lookup_alias env.ssh_config p.host
