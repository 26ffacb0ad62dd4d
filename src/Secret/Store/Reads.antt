-- ===== src/Secret/Store/Reads.antt =====
-- What Get of internal/secret/secret.go reads when the cache has nothing.
use portato.Prelude.{◌≡◌, none, some, Text, arith}
use portato.Secret.Store.{Store, Backend, found, not_found, service, cached, get}

module _ (B : Backend) where
  pub get-missing :
      (path : Text) (k : B.Keyring) (s : Store)
      → cached path s ≡ none
      → B.get service path k ≡ not_found
      → (get B path k s).1 ≡ none
  unfolding get
  get-missing path k s h g = ground (arith, h, g)

  pub get-kept :
      (path v : Text) (k : B.Keyring) (s : Store)
      → cached path s ≡ none
      → B.get service path k ≡ found v
      → (get B path k s).1 ≡ some v
  unfolding get
  get-kept path v k s h g = ground (arith, h, g)
