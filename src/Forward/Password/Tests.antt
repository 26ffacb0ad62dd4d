-- ===== src/Forward/Password/Tests.antt =====
-- The password loop on concrete answers.
use portato.Prelude.{
  ◌≤◌, suc, refl, Bool, true, false, none, some, Option, List, [], ◌∷◌, Text, lit, text_eq,
}
use portato.Secret.Store.{
  Store, Step, filled, Backend, found, not_found, deleted, not_deleted, new_store,
}
use portato.Forward.DialErrors.{other}
use portato.Forward.Password.{Round, password_loop}
use portato.Forward.Password.Prompts.{tries, prompts}
use portato.Forward.Password.Stores.{store_provider, store_loop-tries}

abbrev account : Text
account = lit "password:me@b:22"

abbrev denied : Text
denied =
    lit
      "auth failed: ssh: unable to authenticate, attempted methods [none password], no supported methods remain"

-- A keyring that refuses to delete and has the one password, and one that is always empty.
abbrev stubborn : Backend
stubborn = record {
  Keyring = Option Text;
  get = λ svc key k. elim k [ none ↦ not_found | some v ↦ found v ];
  set = λ svc key v k. (some v, none);
  delete = λ svc key k. (k, not_deleted (lit "denied"));
}

abbrev empty : Backend
empty = record {
  Keyring = Bool;
  get = λ svc key k. not_found;
  set = λ svc key v k. (k, none);
  delete = λ svc key k. (k, deleted);
}

-- Another goroutine fills another account.
abbrev others : Store → List Step
others s = filled (lit "password:you@b:22") (lit "x") ∷ []

abbrev wrong : Round
wrong = record {
  is_cancelled = false;
  waited = some (lit "guess");
  is_cancelled_after = false;
  dial = some (other denied);
}

store_loop-tries_example :
    tries
      (password_loop
        (store_provider empty others)
        account
        true
        (wrong ∷ wrong ∷ [])
        (new_store, true)).1
    ≤ suc (
        prompts
          (password_loop
            (store_provider empty others)
            account
            true
            (wrong ∷ wrong ∷ [])
            (new_store, true)).1)
unfolding text_eq
store_loop-tries_example =
    store_loop-tries empty others account (wrong ∷ wrong ∷ []) new_store true (λ k. refl)
      (λ t. refl)
