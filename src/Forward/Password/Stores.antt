-- ===== src/Forward/Password/Stores.antt =====
-- The store of internal/secret/secret.go as the provider of internal/forward/password.go.
use portato.Prelude.{
  ◌≡◌, ◌≤◌, suc, refl, ap, ◌∙◌, Bool, true, false, Option, none, some, List, [], ◌∷◌, Text,
  text_eq_self, all, length, arith,
}
use portato.Prelude.Maps.{lookup, lookup-without}
use portato.Secret.Store
use portato.Secret.Store.Reads.{get-missing, get-kept}
use portato.Secret.Store.{
  Store, Backend, Found, found, not_found, new_store, service, cached, set_cache_and_wake, forget,
  Step,
}
use portato.Secret.Store.Wakes.{written, or_before, last_written, cached-run}
use portato.Forward.Password.{Provider, Round, waiting, password_loop}
use portato.Forward.Password.Prompts.{
  tries, prompts, Forgets, Keeps, is_wrong, password_loop-spins, password_loop-tries,
}

-- None of the steps writes a value of the account or forgets it.
abbrev is_none : Option (Option Text) → Bool
is_none none = true
is_none (some v) = false

abbrev pub leaves_account : Text → List Step → Bool
leaves_account account es = all (λ e. is_none (written account e)) es

or_before-none : (v : Option Text) (o : Option (Option Text)) → is_none o ≡ true → or_before v o ≡ v
or_before-none v none h = refl
or_before-none v (some w) h = absurd cc

last_written-left :
    (account : Text) (es : List Step) (v : Option Text)
    → leaves_account account es ≡ true
    → last_written account es v ≡ v
unfolding last_written
last_written-left account [] v h = refl
last_written-left account (e ∷ es) v h =
    last_written-left account es (or_before v (written account e)) (ground arith)
    ∙ or_before-none v (written account e) (ground arith)

module _ (B : Backend) (others : Store → List Step) where
  -- The account's password in the cache or the keyring; a Set of the user, without persistence, is
  -- what ends a Wait. The steps of the other goroutines on the store, between a deletion and the next
  -- read, are `others`.
  abbrev pub store_provider : Provider
  store_provider = record {
    P = Store × B.Keyring;
    get = λ account p. let (s, v) = Store.get B account p.1 p.0 in ((s, p.1), v);
    arrived = λ account v p. (set_cache_and_wake account v p.0, p.1);
    delete =
        λ account p. let (s, k) = (Store.delete B account p.1 p.0).0 in (Store.run (others s) s, k);
  }

  -- The keyring has no entry after a deletion.
  abbrev pub Deletes : Text → Type 0
  Deletes account =
      (k : B.Keyring) → B.get service account (B.delete service account k).0 ≡ not_found

  pub store-Forgets :
      (account : Text)
      → Deletes account
      → ((s : Store) → leaves_account account (others s) ≡ true)
      → Forgets store_provider account
  unfolding Store.delete forget
  store-Forgets account d away (s, k) =
      get-missing B account (B.delete service account k).0
        (Store.run (others (forget account s)) (forget account s))
        (cached-run account (others (forget account s)) (forget account s)
          ∙ last_written-left account (others (forget account s))
              (cached account (forget account s)) (away (forget account s))
          ∙ lookup-without account account s.cache
          ∙ rw (text_eq_self account) refl)
        (d k)

  -- With the store of secrets behind it, over a keyring that has no entry after a deletion, and as long
  -- as no other goroutine sets the account's password, ends a Get of it, or deletes it between a
  -- deletion by the loop and the next read, the loop dials at most once more often than it prompts. The
  -- other goroutines may take any other steps on the store there.
  pub store_loop-tries :
      (account : Text) (rs : List Round) (s : Store) (k : B.Keyring)
      → Deletes account
      → ((t : Store) → leaves_account account (others t) ≡ true)
      → tries (password_loop store_provider account true rs (s, k)).1
        ≤ suc (prompts (password_loop store_provider account true rs (s, k)).1)
  store_loop-tries account rs s k d away =
      password_loop-tries store_provider account rs (s, k) (store-Forgets account d away)

module _ (B : Backend) where
  -- The provider when no other goroutine comes in between.
  abbrev pub alone : Provider
  alone = store_provider B (λ s. [])

  -- The cache lacks the account, and the keyring is `k`.
  abbrev Lacks : Text → B.Keyring → Store × B.Keyring → Type 0
  Lacks account k p = (cached account p.0 ≡ none) × (p.1 ≡ k)

  store-Keeps :
      (account pw : Text) (k : B.Keyring)
      → B.get service account k ≡ found pw
      → (B.delete service account k).0 ≡ k
      → Keeps alone account pw (Lacks account k)
  unfolding Store.delete Store.run forget
  store-Keeps account pw k has stays (s, k') (lacks, same) = (
    get-kept B account pw k' s lacks (ap (B.get service account) same ∙ has),
    (
      lookup-without account account (Store.get B account k' s).0.cache
          ∙ rw (text_eq_self account) refl,
      ap (λ x. (B.delete service account x).0) same ∙ stays,
    ),
  )

  -- Over a keyring whose entry survives its deletion, as when the keyring refuses to delete, the
  -- loop, which does not look at Delete's error, tries the same rejected password on every round,
  -- without a prompt and without an end.
  pub store_loop-spins :
      (account pw : Text) (rs : List Round) (k : B.Keyring)
      → B.get service account k ≡ found pw
      → (B.delete service account k).0 ≡ k
      → all (is_wrong alone) rs ≡ true
      → (tries (password_loop alone account true rs (new_store, k)).1 ≡ length rs)
        × (prompts (password_loop alone account true rs (new_store, k)).1 ≡ 0)
        × ((password_loop alone account true rs (new_store, k)).2 ≡ waiting)
  store_loop-spins account pw rs k has stays wrong =
      password_loop-spins alone account pw (Lacks account k) rs (new_store, k)
        (store-Keeps account pw k has stays) (unfold lookup in refl, refl) wrong
