-- ===== src/Service/Tokens/Attenuation.antt =====
-- Tokens never grant more than the caller's own, when they are exchanged.
use Prim.Native.String.{◌++◌}
use mathlib.Core.Path.{subst}
use charm_registry.Service.Context.Runs.{>>=_ok}
use charm_registry.Prelude.{
  String, ◌≡◌, refl, ◌⊎◌, inl, inr, true, Option, none, some, List, [], ◌∷◌, arith, Bool-cases, ap,
  sym, ◌+◌, ◌∙◌,
}
use charm_registry.Core.{Time, Identity, Package, StoreToken}
use charm_registry.Errors.{Result, ok, Result-cases, ok_injective}
use charm_registry.Auth.Tokens.{new_opaque_token, hash_token}
use charm_registry.Service.Context.{
  Service, World, ◌>>=◌, pure, lift, now, new_uuid, write, random_text,
}
use charm_registry.Service.Guards.{require_auth}
use charm_registry.Service.Guards.Permissions.{MayUse, MayTouch, MayRelease, Grants}
use charm_registry.Service.Tokens.{
  IssueTokenRequest, exchange_request, issued_token, permissions_or_default, issue_store_token,
  exchange_store_token,
}

-- What a caller may do with the first token, it may do with the second.
pub record Within (narrow wide : Option StoreToken) : Type 0 where
  pub uses : (permission : String) → MayUse narrow permission → MayUse wide permission
  pub touches : (pkg : Package) → MayTouch narrow pkg → MayTouch wide pkg
  pub releases : (channel : String) → MayRelease narrow channel → MayRelease wide channel

default_within :
    (items : List String) (permission : String)
    → (permissions_or_default items ≡ []) ⊎ Grants (permissions_or_default items) permission
    → (items ≡ []) ⊎ Grants items permission
unfolding permissions_or_default
default_within [] permission h = inl refl
default_within (item ∷ items) permission h = h

exchanged-Within :
    (identity : Identity) (token : Option StoreToken) (description : Option String)
    (hash session_id : String) (t : Time)
    → Within
        (some (issued_token identity (exchange_request token description) hash session_id t))
        token
unfolding issued_token exchange_request
exchanged-Within identity none description hash session_id t = record {
  uses = λ permission h. tt;
  touches = λ pkg h. tt;
  releases = λ channel h. tt;
}
exchanged-Within identity (some token) description hash session_id t = record {
  uses = λ permission h. default_within token.permissions permission h;
  touches = λ pkg h. h;
  releases = λ channel h. h;
}

ok_pair :
    {A B C : Type 0} {a a' : A} {b b' : B} {c c' : C}
    → ◌≡◌ {A = Result (A × B) × C} (ok (a, b), c) (ok (a', b'), c')
    → (a ≡ a') × (b ≡ b') × (c ≡ c')
ok_pair h =
    let e = ok_injective (ap (λ p. p.0) h) in (ap (λ p. p.0) e, ap (λ p. p.1) e, ap (λ p. p.1) h)

module _ (s : Service) where
  -- What an IssueStoreToken that answers has stored.
  pub record Issued (identity : Identity) (req : IssueTokenRequest) (raw : String)
      (token : StoreToken) (w v : World s) : Type 0 where
    pub session_id : String
    pub t : Time
    pub at : t ≡ s.runtime.clock (w.calls + 1)
    pub authenticated : identity.authenticated ≡ true
    pub made : token ≡ issued_token identity req (hash_token s.runtime raw) session_id t
    pub stored : s.repo.create_store_token token w.db ≡ ok (tt, v.db)

  pub issue_store_token_lem :
      (identity : Identity) (req : IssueTokenRequest) (w v : World s) (raw : String)
      (token : StoreToken)
      → issue_store_token s identity req w ≡ (ok (raw, token), v)
      → Issued identity req raw token w v
  unfolding issue_store_token ◌>>=◌ lift require_auth new_opaque_token random_text now new_uuid
      write pure
  issue_store_token_lem identity req w v raw token h = elim (Bool-cases identity.authenticated) [
    | inr stranger ↦ ground arith
    | inl known ↦ elim (Result-cases (s.runtime.random w.calls)) [
      | inr (e, failed) ↦ ground arith
      | inl (seed, drawn) ↦
          let id = s.runtime.uuid (w.calls + 1 + 1) in
          let t = s.runtime.clock (w.calls + 1) in
          let new = issued_token identity req (hash_token s.runtime ("cr_" ++ seed)) id t in
          elim (Result-cases (s.repo.create_store_token new w.db)) [
            | inr (e, failed) ↦ ground arith
            | inl ((tt, db), stored) ↦
                let outcome : issue_store_token s identity req w
                    ≡ (ok ("cr_" ++ seed, new), record w { db = db; calls = w.calls + 1 + 1 + 1 }) =
                  ground arith in
                let same = sym h ∙ outcome in
                let parts = ok_pair same in
                let made' =
                  parts.1
                  ∙ ap (λ r. issued_token identity req (hash_token s.runtime r) id t)
                      (sym parts.0) in
                record {
                  session_id = id;
                  t = t;
                  at = refl;
                  authenticated = known;
                  made = made';
                  stored =
                      ap (λ x. s.repo.create_store_token x w.db) parts.1
                      ∙ stored
                      ∙ ap (λ x. ok (tt, x.db)) (sym parts.2);
                }
          ]
    ]
  ]

  -- ExchangeStoreToken, when it answers: the caller was authenticated, and the token that is stored
  -- has the hash of the secret that is handed out, belongs to the caller's account, and grants no
  -- permission, package or channel that the caller's own token does not grant.
  pub exchange_store_token-Within :
      (identity : Identity) (description : Option String) (w w' : World s) (raw : String)
      → exchange_store_token s identity description w ≡ (ok raw, w')
      → (identity.authenticated ≡ true)
        × ((token : StoreToken) × (s.repo.create_store_token token w.db ≡ ok (tt, w'.db))
            × (token.token_hash ≡ hash_token s.runtime raw)
            × (token.account_id ≡ identity.account.id)
            × Within (some token) identity.token)
  unfolding exchange_store_token pure issued_token
  exchange_store_token-Within identity description w w' raw h =
      let req = exchange_request identity.token description in
      let ((raw0, token), v, answered, ended) =
        >>=_ok (issue_store_token s identity req) _ w w' raw h in
      let issued = issue_store_token_lem identity req w v raw0 token answered in
      let made = issued.made in
      let same_world : v ≡ w' = ap (λ p. p.1) ended in
      let same_raw : raw0 ≡ raw = ok_injective (ap (λ p. p.0) ended) in
      (
        issued.authenticated,
        (
          token,
          issued.stored ∙ ap (λ x. ok (tt, x.db)) same_world,
          ap (λ x. x.token_hash) made ∙ ap (hash_token s.runtime) same_raw,
          ap (λ x. x.account_id) made,
          subst (λ x. Within (some x) identity.token) (sym made)
              (exchanged-Within identity identity.token description _ issued.session_id issued.t),
        ),
      )
