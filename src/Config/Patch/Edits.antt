-- ===== src/Config/Patch/Edits.antt =====
-- What the edits of internal/config/patch.go do to the tubers of a configuration.
use portato.Prelude.{
  ℕ, suc, ◌≡◌, refl, sym, ap, ap₂, ◌∙◌, true, ◌||◌, Option, none, some, List, [], ◌∷◌, ◌++◌, all,
  Text, text_eq, text_eq_iff, text_eq_self, arith,
}
use portato.Config.Types.{Config, Tuber}
use portato.Config.Names.{
  ConfigError, Checked, valid, failed, then_check, then_check-valid, valid-inj,
}
use portato.Config.Validate.{validate, seen_in}
use portato.Config.Validate.Accepted.{distinct, names, validate_iff}
use portato.Config.Prepare.{Env, prepare, prepare_tubers, resolve_tuber, with_type}
use portato.Config.Prepare.Idempotent.{has_target, prepare-settled, with_type-name}
use portato.Config.Prepare.Idempotent.Tubers.{resolve_tuber-name}
use portato.Config.Patch.{
  checked_by, prepare_and_validate, with_tuber_added, with_tuber_removed, tuber_index, remove_at,
}

prepare_tubers-append :
    (env : Env) (ts ss : List Tuber)
    → prepare_tubers env (ts ++ ss)
      ≡ then_check
          (prepare_tubers env ts)
          (λ us. then_check (prepare_tubers env ss) (λ vs. valid (us ++ vs)))
unfolding prepare_tubers
prepare_tubers-append env [] ss = bind_valid (prepare_tubers env ss)
  where
    bind_valid : (c : Checked (List Tuber)) → c ≡ then_check c valid
    bind_valid (valid x) = refl
    bind_valid (failed e) = refl
prepare_tubers-append env (t ∷ ts) ss =
    rw (prepare_tubers-append env ts ss)
      (rebind (resolve_tuber env (with_type t)) (prepare_tubers env ts) (prepare_tubers env ss))
  where
    rebind :
        (r : Checked Tuber) (a b : Checked (List Tuber))
        → then_check r (λ u.
          then_check
            (then_check a (λ us. then_check b (λ vs. valid (us ++ vs))))
            (λ us. valid (u ∷ us)))
          ≡ then_check
              (then_check r (λ u. then_check a (λ us. valid (u ∷ us))))
              (λ us. then_check b (λ vs. valid (us ++ vs)))
    rebind (valid u) (valid us) (valid vs) = refl
    rebind (valid u) (valid us) (failed e) = refl
    rebind (valid u) (failed e) b = refl
    rebind (failed e) a b = refl

-- A result of the checks is what `prepare` made, and Validate accepts it.
pub checks-valid :
    (env : Env) (c d : Config)
    → prepare_and_validate (valid env) c ≡ valid d
    → (prepare env c ≡ valid d) × (validate env.current_user d ≡ none)
unfolding prepare_and_validate
checks-valid env c d done =
    let (x, made, checked) =
      then_check-valid (prepare env c) (λ x. checked_by x (validate env.current_user x)) d done in
    let (same, accepted) = passed x d (validate env.current_user x) checked in
    (made ∙ ap valid same, ap (validate env.current_user) (sym same) ∙ accepted)
  where
    passed :
        (x d : Config) (o : Option ConfigError) → checked_by x o ≡ valid d → (x ≡ d) × (o ≡ none)
    passed x d none h = (valid-inj h, refl)
    passed x d (some e) h = absurd cc

seen_in-last :
    (s : Text) (ts : List Tuber) (u : Tuber)
    → seen_in s (names (ts ++ u ∷ [])) ≡ (seen_in s (names ts) || text_eq u.name s)
seen_in-last s [] u = ground arith
seen_in-last s (t ∷ ts) u = ground (arith, seen_in-last s ts u)

remove_last :
    (ts : List Tuber) (u : Tuber)
    → distinct (names (ts ++ u ∷ [])) ≡ true
    → (i : ℕ) × (tuber_index u.name (ts ++ u ∷ []) ≡ some i) × (remove_at i (ts ++ u ∷ []) ≡ ts)
unfolding tuber_index remove_at
remove_last [] u d = (0, ground (arith, text_eq_self u.name), refl)
remove_last (t ∷ ts) u d =
    let (i, found, removed) = remove_last ts u (ground arith) in
    (
      suc i,
      ground
          (arith, found, seen_in-last t.name ts u, text_eq_iff t.name u.name, text_eq_self u.name),
      ap (λ l. t ∷ l) removed,
    )

prepare_one :
    (env : Env) (t : Tuber) (vs : List Tuber)
    → prepare_tubers env (t ∷ []) ≡ valid vs
    → (u : Tuber) × (vs ≡ u ∷ []) × (u.name ≡ t.name)
unfolding prepare_tubers
prepare_one env t vs done =
    let (u, first, made) =
      then_check-valid (resolve_tuber env (with_type t)) (λ u. valid (u ∷ [])) vs done in
    (u, sym (valid-inj made), resolve_tuber-name env (with_type t) u first ∙ with_type-name t)

pub prepare-tubers :
    (env : Env) (c d : Config)
    → prepare env c ≡ valid d
    → (us : List Tuber) × (prepare_tubers env c.tubers ≡ valid us) × (record c { tubers = us } ≡ d)
unfolding prepare
prepare-tubers env c d done =
    let (us, made, same) =
      then_check-valid (prepare_tubers env c.tubers) (λ ts. valid (record c { tubers = ts })) d
        done in
    (us, made, valid-inj same)

-- Where the tubers of a configuration are prepared, one more is prepared by itself.
added-tubers :
    (env : Env) (c d : Config) (t : Tuber)
    → prepare env c ≡ valid c
    → prepare env (record c { tubers = c.tubers ++ t ∷ [] }) ≡ valid d
    → (u : Tuber) × (d ≡ record c { tubers = c.tubers ++ u ∷ [] }) × (u.name ≡ t.name)
added-tubers env c d t settled done =
    let (us, old_made, old) = prepare-tubers env c c settled in
    let (ds, made, new) = prepare-tubers env (record c { tubers = c.tubers ++ t ∷ [] }) d done in
    let (olds, first, next) =
      then_check-valid (prepare_tubers env c.tubers)
        (λ us. then_check (prepare_tubers env (t ∷ [])) (λ vs. valid (us ++ vs))) ds
        (sym (prepare_tubers-append env c.tubers (t ∷ [])) ∙ made) in
    let (vs, one, both) =
      then_check-valid (prepare_tubers env (t ∷ [])) (λ vs. valid (olds ++ vs)) ds next in
    let (u, single, name) = prepare_one env t vs one in
    let kept : olds ≡ c.tubers =
      valid-inj (sym first ∙ old_made) ∙ ap (λ (x : Config). x.tubers) old in
    (
      u,
      sym new
          ∙ ap (λ ts. record c { tubers = ts })
              (sym (valid-inj both) ∙ ap₂ (λ xs ys. xs ++ ys) kept single),
      name,
    )

removed-found :
    (loaded : Checked Env) (name : Text) (c : Config) (i : ℕ)
    → tuber_index name c.tubers ≡ some i
    → with_tuber_removed loaded name c
      ≡ prepare_and_validate loaded (record c { tubers = remove_at i c.tubers })
unfolding with_tuber_removed
removed-found loaded name c i found = ground (arith, found)

remove_last-result :
    (env : Env) (c : Config) (u : Tuber)
    → prepare env c ≡ valid c
    → validate env.current_user c ≡ none
    → distinct (names (c.tubers ++ u ∷ [])) ≡ true
    → with_tuber_removed (valid env) u.name (record c { tubers = c.tubers ++ u ∷ [] }) ≡ valid c
unfolding prepare_and_validate
remove_last-result env c u settled accepted d =
    let (i, found, removed) = remove_last c.tubers u d in
    removed-found (valid env) u.name (record c { tubers = c.tubers ++ u ∷ [] }) i found
    ∙ ap (λ ts. prepare_and_validate (valid env) (record c { tubers = ts })) removed
    ∙ rw (settled, accepted) refl

-- Adding a tuber to a prepared and valid configuration and then removing it by its name gives the
-- configuration back, whenever the addition succeeds.
pub with_tuber_removed-added :
    (env : Env) (c d : Config) (t : Tuber)
    → prepare env c ≡ valid c
    → validate env.current_user c ≡ none
    → with_tuber_added (valid env) t c ≡ valid d
    → with_tuber_removed (valid env) t.name d ≡ valid c
unfolding with_tuber_added
with_tuber_removed-added env c d t settled accepted done =
    let (made, ok) = checks-valid env (record c { tubers = c.tubers ++ t ∷ [] }) d done in
    let (u, same, name) = added-tubers env c d t settled made in
    let d-ok = ap (λ (x : Config). validate env.current_user x) (sym same) ∙ ok in
    let unique =
      (validate_iff env.current_user (record c { tubers = c.tubers ++ u ∷ [] })).0 d-ok in
    ap₂ (with_tuber_removed (valid env)) (sym name) same
    ∙ remove_last-result env c u settled accepted (ground (arith, unique))

-- A configuration that has passed prepare and Validate passes them again unchanged, with the same
-- ssh configuration and where every tuber has an ssh target.
pub prepare_and_validate-stable :
    (env : Env) (c d : Config)
    → all has_target c.tubers ≡ true
    → prepare_and_validate (valid env) c ≡ valid d
    → prepare_and_validate (valid env) d ≡ valid d
unfolding prepare_and_validate
prepare_and_validate-stable env c d targets done =
    let (made, ok) = checks-valid env c d done in rw (prepare-settled env c d targets made, ok) refl
