-- ===== src/Blob.antt =====
-- internal/blob/store.go: the interface of a blob store and the in-memory one. A payload of bytes
-- is a text. The S3 store is another implementation of the interface.
use charm_registry.Prelude.{String, none, some}
use charm_registry.Prelude.Maps.{Map, lookup, insert}
use charm_registry.Errors.{Result, ok, err, failure}

-- A `Put` names the key, the payload and the content type.
pub record BlobStore : Type 1 where
  pub State : Type 0
  pub put : String → String → String → State → Result (Unit {0} × State)
  pub get : String → State → Result String

unfoldable pub memory_put : String → String → String → Map String → Result (Unit {0} × Map String)
memory_put key payload content_type blobs = ok (tt, insert key payload blobs)

unfoldable pub memory_get : String → Map String → Result String
memory_get key blobs = elim (lookup key blobs) [
  | none ↦ err (failure "blob not found")
  | some payload ↦ ok payload
]

-- NewMemoryStore and its methods
abbrev pub memory_store : BlobStore
memory_store = record { State = Map String; put = memory_put; get = memory_get }
