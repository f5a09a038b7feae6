-- ===== src/Service/Context.antt =====
-- What a service works with: its configuration, repository and blob store, and the functions of
-- other packages that its methods call.
pub mod Runs
pub mod Keeping
use charm_registry.Prelude.{ℕ, String, Option, List, ◌+◌, ◌≡◌, refl, ◌≢◌}
use charm_registry.Prelude.Maps.{Map}
use charm_registry.Core.{Time, CharmResourceDeclaration}
use charm_registry.Charm.{Decoders}
use charm_registry.Config.{Config}
use charm_registry.Repo.Interface.{Repository}
use charm_registry.Blob.{BlobStore}
use charm_registry.Errors.{Result, ok, err, Error, map_error}

-- time.Now and uuid.NewString answer anew at each call, so they take the number of calls made
-- before. `random` is 32 bytes of crypto/rand in the URL alphabet of base64, or its error. The
-- hashes are in hexadecimal digits. `visit_resources` is the order in which a loop ranges over the
-- resources of a manifest.
pub record Runtime : Type 0 where
  pub clock : ℕ → Time
  pub uuid : ℕ → String
  pub random : ℕ → Result String
  pub sha256 : String → String
  pub sha384 : String → String
  pub sha512 : String → String
  pub decoders : Decoders
  pub visit_resources : Map CharmResourceDeclaration → Map CharmResourceDeclaration

-- service.Service
pub record Service : Type 1 where
  pub cfg : Config
  pub repo : Repository
  pub blobs : BlobStore
  pub runtime : Runtime

-- The stores, and the number of calls made of the runtime so far.
pub record World (s : Service) : Type 0 where
  pub db : s.repo.State
  pub files : s.blobs.State
  pub calls : ℕ

-- A method that writes: what it has written before an error stays written.
abbrev pub Action : Service → Type 0 → Type 0
Action s A = World s → Result A × World s

module _ {s : Service} where
  infixl 5 ◌>>=◌ ◌>>◌
  abbrev pub continue : {A B : Type 0} → Result A → (A → Action s B) → Action s B
  continue (ok a) f w = f a w
  continue (err e) f w = (err e, w)

  unfoldable pub ◌>>=◌ : {A B : Type 0} → Action s A → (A → Action s B) → Action s B
  ◌>>=◌ m f w = let (r, w') = m w in continue r f w'

  abbrev pub ◌>>◌ : {B : Type 0} → Action s (Unit {0}) → Action s B → Action s B
  m >> k = m >>= λ _. k

  unfoldable pub pure : {A : Type 0} → A → Action s A
  pure a w = (ok a, w)

  -- A method of the repository that only reads.
  unfoldable pub read : {A : Type 0} → (s.repo.State → Result A) → Action s A
  read f w = (f w.db, w)

  abbrev pub store_db : {A : Type 0} → Result (A × s.repo.State) → Action s A
  store_db (ok (a, db)) w = (ok a, record w { db = db })
  store_db (err e) w = (err e, w)

  -- A method of the repository that writes.
  unfoldable pub write : {A : Type 0} → (s.repo.State → Result (A × s.repo.State)) → Action s A
  write f w = store_db (f w.db) w

  abbrev pub store_file : Result (Unit {0} × s.blobs.State) → Action s (Unit {0})
  store_file (ok (a, files)) w = (ok a, record w { files = files })
  store_file (err e) w = (err e, w)

  -- blobs.Put
  unfoldable pub put_blob : String → String → String → Action s (Unit {0})
  put_blob key payload content_type w = store_file (s.blobs.put key payload content_type w.files) w

  -- blobs.Get
  unfoldable pub get_blob : String → Action s String
  get_blob key w = (s.blobs.get key w.files, w)

  -- A result that is known already, such as an error.
  unfoldable pub lift : {A : Type 0} → Result A → Action s A
  lift r w = (r, w)

  abbrev next : World s → World s
  next w = record w { calls = w.calls + 1 }

  -- time.Now().UTC()
  unfoldable pub now : Action s Time
  now w = (ok (s.runtime.clock w.calls), next w)

  -- uuid.NewString()
  unfoldable pub new_uuid : Action s String
  new_uuid w = (ok (s.runtime.uuid w.calls), next w)

  -- rand.Read into 32 bytes
  unfoldable pub random_text : Action s String
  random_text w = (s.runtime.random w.calls, next w)

  -- The error of an action turned into another one.
  unfoldable pub catch_as : {A : Type 0} → (Error → Error) → Action s A → Action s A
  catch_as f m w = let (r, w') = m w in (map_error f r, w')

  -- An action whose outcome is dropped, as in `_ = f()`.
  unfoldable pub ignore : {A : Type 0} → Action s A → Action s (Unit {0})
  ignore m w = (ok tt, (m w).1)
