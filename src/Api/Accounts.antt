-- ===== src/Api/Accounts.antt =====
-- What the identification of a caller writes.
use charm_registry.Prelude.{◌≡◌, refl, ◌∙◌, ◌⊎◌, inl, inr, String, Option, Bool-cases, ◌==◌, ◌+◌}
use charm_registry.Core.{Account, Time, StoreToken}
use charm_registry.Errors.{Result, ok, err, map_error, map_error-eq-ok}
use charm_registry.Auth.Authenticator.{authenticate}
use charm_registry.Service.Context.{World, Action, ◌>>=◌, continue, write, store_db, now, read}
use charm_registry.Service.Context.Keeping.{
  SameStores, Keeps, Keeps-pure, Keeps-now, Keeps-new_uuid,
}
use charm_registry.Service.Tokens.{resolve_identity, resolve_subject, claimed_account}
use charm_registry.Auth.Tokens.{Claims}
use charm_registry.Api.Requests.{Request}
use charm_registry.Api.Identities.{Api, identity_of, caller_claims, authenticator, unauthorized}

module _ (api : Api) where
  -- The account has the subject that the credentials of the request show, as Authenticate reads them
  -- in that world.
  pub record IsOfCaller (req : Request) (w : World api.svc) (account : Account) : Type 0 where
    pub claims : Claims
    pub token : Option StoreToken
    pub authentic :
        authenticate api.svc.runtime
          (authenticator api w.db)
          (api.svc.runtime.clock w.calls)
          (req.header "Authorization")
        ≡ ok (claims, token)
    pub same_subject : account.subject ≡ claims.subject

  -- Nothing is written but, at most, one account, which is as `P` says.
  pub record WritesAtMostAccount (P : Account → Type 0) (w v : World api.svc) : Type 0 where
    pub same_files : v.files ≡ w.files
    pub same_or_ensured :
        (v.db ≡ w.db)
        ⊎ ((t : Time) × (asked stored : Account) × P asked
            × (api.svc.repo.ensure_account t asked w.db ≡ ok (stored, v.db)))

  pub record AtMostAccount (P : World api.svc → Account → Type 0) {A : Type 0}
      (m : Action api.svc A) : Type 0 where
    pub at_most : (w : World api.svc) → WritesAtMostAccount (P w) w (m w).1

  then_same :
      {P : Account → Type 0} {w v u : World api.svc}
      → WritesAtMostAccount P w v
      → SameStores v u
      → WritesAtMostAccount P w u
  then_same {w = w} {v = v} {u = u} first same = record {
    same_files = same.1 ∙ first.same_files;
    same_or_ensured = elim first.same_or_ensured [
      | inl kept ↦ inl (same.0 ∙ kept)
      | inr (t, asked, stored, own, ensured) ↦ inr (t, asked, stored, own, rw same.0 ensured)
    ];
  }

  same_then :
      {P Q : Account → Type 0} {w v u : World api.svc}
      → ((a : Account) → P a → Q a)
      → SameStores w v
      → WritesAtMostAccount P v u
      → WritesAtMostAccount Q w u
  same_then {w = w} {v = v} {u = u} weaker same rest = record {
    same_files = rest.same_files ∙ same.1;
    same_or_ensured = elim rest.same_or_ensured [
      | inl kept ↦ inl (kept ∙ same.0)
      | inr (t, asked, stored, own, ensured) ↦
          inr (t, asked, stored, weaker asked own, rw (← same.0) ensured)
    ];
  }

  same_writes : {P : Account → Type 0} (w : World api.svc) → WritesAtMostAccount P w w
  same_writes w = record { same_files = refl; same_or_ensured = inl refl }

  continue_keeping :
      {P : Account → Type 0} {A B : Type 0} (r : Result A) (f : A → Action api.svc B)
      (w v : World api.svc)
      → WritesAtMostAccount P w v
      → ((a : A) → Keeps (f a))
      → WritesAtMostAccount P w (continue r f v).1
  continue_keeping (ok a) f w v first keeps = then_same first ((keeps a).same v)
  continue_keeping (err e) f w v first keeps = first

  continue_writing :
      {P : Account → Type 0} {A B : Type 0} (r : Result A) (f : A → Action api.svc B)
      (w v : World api.svc)
      → SameStores w v
      → ((a : A) → AtMostAccount (λ w. P) (f a))
      → WritesAtMostAccount P w (continue r f v).1
  continue_writing (ok a) f w v same writes = same_then (λ a own. own) same ((writes a).at_most v)
  continue_writing (err e) f w v same writes = same_then (λ a own. own) same (same_writes v)

  pub then-Keeps :
      {P : World api.svc → Account → Type 0} {A B : Type 0} {m : Action api.svc A}
      {f : A → Action api.svc B}
      → AtMostAccount P m
      → ((a : A) → Keeps (f a))
      → AtMostAccount P (m >>= f)
  unfolding ◌>>=◌
  then-Keeps {m = m} {f = f} first rest = record {
    at_most = λ w. continue_keeping (m w).0 f w (m w).1 (first.at_most w) rest;
  }

  Keeps-then :
      {P : Account → Type 0} {A B : Type 0} {m : Action api.svc A} {f : A → Action api.svc B}
      → Keeps m
      → ((a : A) → AtMostAccount (λ w. P) (f a))
      → AtMostAccount (λ w. P) (m >>= f)
  unfolding ◌>>=◌
  Keeps-then {m = m} {f = f} first rest = record {
    at_most = λ w. continue_writing (m w).0 f w (m w).1 (first.same w) rest;
  }

  pub Keeps-AtMostAccount :
      {P : World api.svc → Account → Type 0} {A : Type 0} {m : Action api.svc A}
      → Keeps m
      → AtMostAccount P m
  Keeps-AtMostAccount {P = P} keeps = record {
    at_most = λ w. same_then {P = P w} (λ a own. own) (keeps.same w) (same_writes _);
  }

  ensured_writes :
      {P : Account → Type 0} (t : Time) (asked : Account) (w : World api.svc)
      (r : Result (Account × api.svc.repo.State))
      → P asked
      → api.svc.repo.ensure_account t asked w.db ≡ r
      → WritesAtMostAccount P w (store_db r w).1
  ensured_writes t asked w (ok (stored, db)) own done = record {
    same_files = refl;
    same_or_ensured = inr (t, asked, stored, own, done);
  }
  ensured_writes t asked w (err e) own done = same_writes w

  ensure_writes :
      {P : Account → Type 0} (t : Time) (asked : Account)
      → P asked
      → AtMostAccount (λ w. P) (write (api.svc.repo.ensure_account t asked))
  unfolding write
  ensure_writes t asked own = record { at_most = λ w. ensured_writes t asked w _ own refl }

  -- The account has the subject of the claims.
  abbrev HasSubject : Claims → Account → Type 0
  HasSubject claims account = account.subject ≡ claims.subject

  claimed_account-HasSubject :
      (id : String) (t : Time) (claims : Claims) → HasSubject claims (claimed_account id t claims)
  unfolding claimed_account
  claimed_account-HasSubject id t claims = refl

  resolve_subject_writes :
      (claims : Claims) (token : Option StoreToken)
      → AtMostAccount (λ w. HasSubject claims) (resolve_subject api.svc claims token)
  unfolding resolve_subject
  resolve_subject_writes claims token = Keeps-then Keeps-new_uuid λ id.
      Keeps-then Keeps-now λ created_at. Keeps-then Keeps-now λ t.
        then-Keeps
          (ensure_writes t (claimed_account id created_at claims)
            (claimed_account-HasSubject id created_at claims))
          λ account. Keeps-pure _

  resolve_identity_writes :
      (claims : Claims) (token : Option StoreToken)
      → AtMostAccount (λ w. HasSubject claims) (resolve_identity api.svc claims token)
  unfolding resolve_identity
  resolve_identity_writes claims token = elim (Bool-cases (claims.subject == "")) [
    | inl empty ↦ rw empty (Keeps-AtMostAccount (Keeps-pure _))
    | inr given ↦ rw given (resolve_subject_writes claims token)
  ]

  identified :
      (req : Request) (w v : World api.svc) (found : Result (Claims × Option StoreToken))
      → SameStores w v
      → map_error
          (λ e. unauthorized api)
          (authenticate api.svc.runtime
            (authenticator api w.db)
            (api.svc.runtime.clock w.calls)
            (req.header "Authorization"))
        ≡ found
      → WritesAtMostAccount
          (IsOfCaller req w)
          w
          (continue found (λ c. resolve_identity api.svc c.0 c.1) v).1
  identified req w v (err e) same h =
      same_then {P = IsOfCaller req w} (λ a own. own) same (same_writes v)
  identified req w v (ok (claims, token)) same h =
      same_then
        (λ a own. record {
          claims = claims;
          token = token;
          authentic = map_error-eq-ok _ _ h;
          same_subject = own;
        })
        same ((resolve_identity_writes claims token).at_most v)

  pub identity_of_writes : (req : Request) → AtMostAccount (IsOfCaller req) (identity_of api req)
  unfolding identity_of caller_claims ◌>>=◌ now read
  identity_of_writes req = record {
    at_most = λ w. identified req w (record w { calls = w.calls + 1 }) _ (refl, refl) refl;
  }
