-- ===== src/Config/Urls.antt =====
-- What Load makes of the URLs, which the service appends paths to.
use charm_registry.Prelude.{false, ◌≡◌, ◌≢◌, ◌⊎◌, inl, inr, eq_iff, ◌==◌, Bool-cases, refl}
use charm_registry.Errors.{ok, err, failure}
use charm_registry.Text.Trim.{
  ends_with, starts_with, ends_with-trim_right_char, ends_with-trim_char, starts_with-trim_char,
}
use charm_registry.Config.{Config}
use charm_registry.Config.Load.{Environment, getenv, env, loaded, load}

-- No URL ends in a slash, and the root of the image repositories neither ends nor begins with one.
pub record HasPlainUrls (cfg : Config) : Type 0 where
  pub api : ends_with b'/' cfg.public_api_url ≡ false
  pub storage : ends_with b'/' cfg.public_storage_url ≡ false
  pub registry : ends_with b'/' cfg.public_registry_url ≡ false
  pub endpoint : ends_with b'/' cfg.s3_endpoint ≡ false
  pub issuer : ends_with b'/' cfg.oidc_issuer_url ≡ false
  pub root_end : ends_with b'/' cfg.registry_repository_root ≡ false
  pub root_start : starts_with b'/' cfg.registry_repository_root ≡ false

loaded-HasPlainUrls : (e : Environment) → HasPlainUrls (loaded e)
unfolding loaded
loaded-HasPlainUrls e = record {
  api = ends_with-trim_right_char _ (env e "CHARM_REGISTRY_PUBLIC_API_URL" "http://localhost:8080");
  storage =
      ends_with-trim_right_char _
        (env e "CHARM_REGISTRY_PUBLIC_STORAGE_URL" "http://localhost:8080");
  registry =
      ends_with-trim_right_char _
        (env e "CHARM_REGISTRY_PUBLIC_REGISTRY_URL" "http://localhost:5000");
  endpoint = ends_with-trim_right_char _ (getenv e "CHARM_REGISTRY_S3_ENDPOINT");
  issuer = ends_with-trim_right_char _ (getenv e "CHARM_REGISTRY_OIDC_ISSUER_URL");
  root_end = ends_with-trim_char _ (env e "CHARM_REGISTRY_REGISTRY_REPOSITORY_ROOT" "charms");
  root_start = starts_with-trim_char _ (env e "CHARM_REGISTRY_REGISTRY_REPOSITORY_ROOT" "charms");
}

-- Load fails exactly where the variable of the database's URL is unset or empty. Otherwise the
-- configuration has that URL, its URLs end in no slash, and the repository root is free of slashes at
-- both ends.
pub load-HasPlainUrls :
    (e : Environment)
    → ((getenv e "CHARM_REGISTRY_DATABASE_URL" ≡ "")
        × (load e ≡ err (failure "CHARM_REGISTRY_DATABASE_URL is required")))
      ⊎ ((getenv e "CHARM_REGISTRY_DATABASE_URL" ≢ "")
          × ((cfg : Config) × (load e ≡ ok cfg)
              × (cfg.database_url ≡ getenv e "CHARM_REGISTRY_DATABASE_URL")
              × HasPlainUrls cfg))
unfolding load loaded
load-HasPlainUrls e =
    let cfg = loaded e in
    elim (Bool-cases (cfg.database_url == "")) [
      | inl empty ↦ inl ((eq_iff cfg.database_url "").0 empty, rw empty refl)
      | inr given ↦ inr (
        λ same. cc ((eq_iff cfg.database_url "").1 same),
        (cfg, rw given refl, refl, loaded-HasPlainUrls e),
      )
    ]
