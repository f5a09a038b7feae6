-- ===== src/Api/Writers.antt =====
-- The write handlers: what they ask of the caller, before they write.
use charm_registry.Prelude.{String, ◌≡◌, refl, ◌⊎◌, inl, inr}
use charm_registry.Core.{Identity}
use charm_registry.Errors.{Result, ok, err, Error}
use charm_registry.Service.Context.{World, Action, ◌>>=◌, continue, pure, lift}
use charm_registry.Service.Context.Keeping.{SameStores}
use charm_registry.Service.Authorization.Writes.{Managed, Refuses}
use charm_registry.Api.Responses.{Response, write_error}
use charm_registry.Api.Requests.{Request}
use charm_registry.Api.Identities.{Api, answered, response_of, identity_of}

module _ (api : Api) where
  -- The caller of a request is identified, and may manage the package that the path names.
  pub record ByManager (req : Request) (permission : String) (w : World api.svc) : Type 0 where
    pub caller : Identity
    pub after : World api.svc
    pub is_caller : identity_of api req w ≡ (ok caller, after)
    pub manages : Managed api.svc caller (req.url_param "name") permission after

  Refuses-bind :
      {A B : Type 0} (m : Action api.svc A) (f : A → Action api.svc B) (v : World api.svc)
      → Refuses api.svc m v
      → Refuses api.svc (m >>= f) v
  unfolding ◌>>=◌
  Refuses-bind m f v (e, h) = (e, rw h refl)

  Refuses-lift :
      {A B M : Type 0} (r : Result A) (f : A → Action api.svc B) (v : World api.svc)
      → ((a : A) → M ⊎ Refuses api.svc (f a) v)
      → M ⊎ Refuses api.svc (lift r >>= f) v
  unfolding ◌>>=◌ lift
  Refuses-lift (ok a) f v h = h a
  Refuses-lift (err e) f v h = inr (e, refl)

  pub Refuses-then :
      {A B M : Type 0} (m : Action api.svc A) (f : A → Action api.svc B) (v : World api.svc)
      → M ⊎ Refuses api.svc m v
      → M ⊎ Refuses api.svc (m >>= f) v
  Refuses-then m f v (inl managed) = inl managed
  Refuses-then m f v (inr refused) = inr (Refuses-bind m f v refused)

  -- The part of a write handler after the caller is known lets only a manager in.
  pub record Guards (req : Request) (permission : String) (k : Identity → Action api.svc Response)
      : Type 0 where
    pub lets_in :
        (identity : Identity) (v : World api.svc)
        → Managed api.svc identity (req.url_param "name") permission v
          ⊎ Refuses api.svc (k identity) v

  pub record GuardedBy (req : Request) (permission : String)
      (handle : World api.svc → Response × World api.svc) : Type 0 where
    pub at :
        (w : World api.svc)
        → ByManager req permission w
          ⊎ ((e : Error) × ((handle w).0 ≡ write_error e)
              × SameStores (identity_of api req w).1 (handle w).1)

  known :
      (req : Request) (permission : String) (k : Identity → Action api.svc Response)
      (w v : World api.svc) (r : Result Identity)
      → identity_of api req w ≡ (r, v)
      → Guards req permission k
      → ByManager req permission w
        ⊎ ((e : Error) × (response_of (continue r k v).0 ≡ write_error e)
            × SameStores v (continue r k v).1)
  unfolding response_of
  known req permission k w v (err e) found guards = inr (e, refl, (refl, refl))
  known req permission k w v (ok identity) found guards = elim (guards.lets_in identity v) [
    | inl managed ↦
        inl (record { caller = identity; after = v; is_caller = found; manages = managed })
    | inr (e, refused) ↦ inr (e, rw refused refl, rw refused (refl, refl))
  ]

  pub guarded :
      {req : Request} {permission : String} {k : Identity → Action api.svc Response}
      → Guards req permission k
      → GuardedBy req permission (answered api (identity_of api req >>= k))
  unfolding answered ◌>>=◌
  guarded {req} {permission} {k} guards = record {
    at = λ w.
        known req permission k w (identity_of api req w).1 (identity_of api req w).0 refl guards;
  }

  pub decoded_write :
      {A B : Type 0} (req : Request) (permission : String) (r : Result A)
      (m : Identity → A → Action api.svc B) (g : B → Response)
      → ((identity : Identity) (v : World api.svc) (a : A)
          → Managed api.svc identity (req.url_param "name") permission v
            ⊎ Refuses api.svc (m identity a) v)
      → GuardedBy req permission (
          answered api
            (identity_of api req >>= λ identity. lift r >>= λ a. m identity a >>= λ b. pure (g b)))
  decoded_write req permission r m g lets_in = guarded (record {
    lets_in = λ identity v.
        Refuses-lift r (λ a. m identity a >>= λ b. pure (g b)) v
          λ a. Refuses-then (m identity a) (λ b. pure (g b)) v (lets_in identity v a);
  })
