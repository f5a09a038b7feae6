-- ===== src/Service/Context/Runs.antt =====
-- What a run of an action that succeeds says of its steps.
use charm_registry.Prelude.{◌≡◌, refl, ap, ◌∙◌, arith, inl, inr}
use charm_registry.Errors.{Result, Error, ok, err, Result-cases, map_error-eq-ok}
use charm_registry.Service.Context.{
  Service, World, Action, ◌>>=◌, read, write, lift, catch_as, continue,
}

module _ {s : Service} where
  continue_ok :
      {A B : Type 0} (r : Result A) (f : A → Action s B) (w w' : World s) (b : B)
      → continue r f w ≡ (ok b, w')
      → (a : A) × (r ≡ ok a) × (f a w ≡ (ok b, w'))
  continue_ok (ok a) f w w' b h = (a, refl, h)
  continue_ok (err e) f w w' b h = cc

  pub >>=_ok :
      {A B : Type 0} (m : Action s A) (f : A → Action s B) (w w' : World s) (b : B)
      → (m >>= f) w ≡ (ok b, w')
      → (a : A) × (v : World s) × (m w ≡ (ok a, v)) × (f a v ≡ (ok b, w'))
  unfolding ◌>>=◌
  >>=_ok m f w w' b h =
      let (a, m_ok, f_ok) = continue_ok (m w).0 f (m w).1 w' b h in
      (a, (m w).1, ap (λ r. (r, (m w).1)) m_ok, f_ok)

  pub lift_ok :
      {A : Type 0} (r : Result A) (w v : World s) (a : A)
      → lift r w ≡ (ok a, v)
      → (r ≡ ok a) × (w ≡ v)
  unfolding lift
  lift_ok r w v a h = (ap (λ p. p.0) h, ap (λ p. p.1) h)

  pub read_ok :
      {A : Type 0} (f : s.repo.State → Result A) (w v : World s) (a : A)
      → read f w ≡ (ok a, v)
      → (f w.db ≡ ok a) × (w ≡ v)
  unfolding read
  read_ok f w v a h = (ap (λ p. p.0) h, ap (λ p. p.1) h)

  pub write_ok :
      {A : Type 0} (f : s.repo.State → Result (A × s.repo.State)) (w v : World s) (a : A)
      → write f w ≡ (ok a, v)
      → f w.db ≡ ok (a, v.db)
  unfolding write
  write_ok f w v a h = elim (Result-cases (f w.db)) [
    | inl ((b, db), done) ↦ ground arith
    | inr (e, failed) ↦ ground arith
  ]

  pub catch_as_ok :
      {A : Type 0} (f : Error → Error) (m : Action s A) (w v : World s) (a : A)
      → catch_as f m w ≡ (ok a, v)
      → m w ≡ (ok a, v)
  unfolding catch_as
  catch_as_ok f m w v a h =
      let done = map_error-eq-ok f (m w).0 (ap (λ p. p.0) h) in
      ap (λ r. (r, (m w).1)) done ∙ ap (λ x. (ok a, x)) (ap (λ p. p.1) h)
