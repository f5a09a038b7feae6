-- ===== src/Lib.antt =====
-- The verification of charm-registry, a private registry of charms with the API of Charmhub
-- (module github.com/gschiano/charm-registry). The program is an HTTP API over a service over a
-- repository of records and a store of blobs.
--
-- The parts and the files that model them, with paths from the repository's root:
--   internal/core/types.go        Core: the records that all parts share
--   internal/service/errors.go    Errors: the errors of the service and of the repository, and the
--                                 results that carry them
--   internal/repo/interface.go    Repo/Interface: a repository is a state with operations on it
--   internal/repo/memory.go       Repo/Memory: the in-memory repository, one child for each kind of
--                                 record (Accounts, Packages, Revisions, Resources, Releases)
--   internal/repo/postgres_*.go   Repo/Postgres: the tables of the database and the statements on
--                                 them (Accounts, Packages, Access, Tracks,
--                                 Revisions, Releases)
--   internal/blob/store.go        Blob: the store of blobs, and the one in memory
--   internal/config/config.go     Config: the configuration, and Config/Load: how the environment
--                                 gives it
--   internal/charm/archive.go     Charm: what is read from a charm archive
--   internal/auth/auth.go         Auth/Tokens: opaque tokens and their hashes, and
--                                 Auth/Authenticator: the authentication of a request
--   internal/auth/macaroon.go     Auth/Macaroons: the macaroon that carries a token
--   internal/service/service.go   Service/Context, Service/Root, and the requests by the methods
--   internal/service/helpers.go   Service/Guards, Service/Helpers and Service/Links
--   internal/service/tokens.go    Service/Tokens
--   internal/service/packages.go  Service/Packages, and Service/Search for Find and Info
--   internal/service/releases.go  Service/Channels, Service/Releases, Service/ReleaseMap (for
--                                 ListReleases) and Service/Refresh
--   internal/service/revisions.go Service/Revisions
--   internal/service/resources.go Service/Resources
--   internal/api/http.go          Api/Routes: the table of routes, Api/Identities: the caller of a
--                                 request, Api/Requests and Api/Responses: bodies, errors and
--                                 headers, Api/Documents: the JSON that is written, and
--                                 Api/Filenames: the file names of the download routes
--   internal/api/http_*.go        Api/Handlers: one function for each handler
--   internal/api/spec.go          Api/Texts
-- The answers that the service builds as maps with fixed keys are the records of Service/Views.
--
-- A method of the service is a function of the same name in lower case with underscores
-- (PushRevision is push_revision). One that only reads is a function of the repository's state; one
-- that writes is an Action (Service/Context): a function of the world, which is the states of the
-- repository and of the blob store and a count of the calls made of the runtime, to a result and the
-- world after it. What a method wrote before it fails stays written, as in the code, which has no
-- transactions. The service takes its repository and blob store as the code does, as interfaces, so
-- what is said of it holds for every implementation; where a theorem needs a particular one it names
-- the in-memory repository. A handler of the API is a function from a request and a world to a
-- response and a world, so it always answers: it is an Action whose error is written as the response.
-- System looks at the in-memory repository as a state machine, whose steps are successful calls of its
-- methods, in any order, each under conditions that the type of the steps names; System/Methods takes
-- methods of the service apart into such steps, but for RegisterPackage, PushRevision, Release and
-- ResolveIdentity.
--
-- Not code of the repository, and so parameters: the clock, UUIDs, random bytes and hashes (Runtime),
-- zip and YAML (Decoders), the verifier of OIDC tokens (Authenticator), the router, multipart forms and
-- the JSON decoders of the bodies (Api, JsonDecoders), JSON and base64 of macaroons (Codec), the
-- variables of the environment and time.ParseDuration (Environment), and the order in which a loop
-- ranges over a map and the tables of Unicode for letters in lower case (Platform, with the law that a
-- loop visits each entry once). A document that a handler encodes as JSON is the value that it
-- encodes. Go's strings, strconv and filepath are modelled by Text as far as the code calls them. A text is a sequence of
-- characters, Unicode scalar values, as Go's valid UTF-8 is; in the contents of a file each stands for a
-- byte. An int is an integer; where int64 arithmetic can wrap,
-- in the lifetime of a token, it does. A time is a number of nanoseconds, 0 for the zero time. A map
-- is an association list; a nil map and an empty one are the same. Recursion is on the structure of
-- the data, but for the decimal digits of a number n (Text/Decimal), which are printed on fuel n + 1:
-- that is enough, since each step divides by ten.
--
-- Repo/Postgres is internal/repo/postgres_*.go: a table of internal/repo/migrations is the list of its
-- rows, a statement a function on the tables, with the constraints of the migration as errors; each
-- statement is one transaction of its own. A connection that fails is left out, and a time that the
-- database rounds to a microsecond is kept, and so is a number that does not fit its column.
--
-- Not modelled: the statements of the Postgres repository on resources
-- (internal/repo/postgres_resources.go) and its SearchPackages (internal/repo/postgres_packages.go), the
-- generated queries that nothing imports (internal/repo/db), the S3 store, the building of the OIDC verifier (internal/auth), the wiring
-- (internal/app, cmd), the middleware of the router, and the mutex of the in-memory repository, which
-- each of its methods holds from the first line to the last.
pub mod Prelude
pub mod Text
pub mod Core
pub mod Errors
pub mod Repo
pub mod Config
pub mod Blob
pub mod Charm
pub mod Service
pub mod System
pub mod Auth
pub mod Api
pub mod Tests
