-- ===== src/Service/Context/Keeping.antt =====
-- Actions that write to neither store.
use charm_registry.Prelude.{Bool, true, false, ◌≡◌, refl, ◌∙◌, if◌then◌else◌}
use charm_registry.Errors.{Result, ok, err}
use charm_registry.Service.Context.{
  Service, World, Action, ◌>>=◌, continue, pure, read, lift, now, new_uuid,
}

module _ {s : Service} where
  -- The two worlds have the same stores.
  abbrev pub SameStores : World s → World s → Type 0
  SameStores w v = (v.db ≡ w.db) × (v.files ≡ w.files)

  pub record Keeps {A : Type 0} (m : Action s A) : Type 0 where
    pub same : (w : World s) → SameStores w (m w).1

  Keeps-continue :
      {A B : Type 0} (r : Result A) (f : A → Action s B) (w v : World s)
      → SameStores w v
      → ((a : A) → Keeps (f a))
      → SameStores w (continue r f v).1
  Keeps-continue (ok a) f w v same keeps =
      (((keeps a).same v).0 ∙ same.0, ((keeps a).same v).1 ∙ same.1)
  Keeps-continue (err e) f w v same keeps = same

  pub Keeps-bind :
      {A B : Type 0} {m : Action s A} {f : A → Action s B}
      → Keeps m
      → ((a : A) → Keeps (f a))
      → Keeps (m >>= f)
  unfolding ◌>>=◌
  Keeps-bind {m = m} {f = f} first rest = record {
    same = λ w. Keeps-continue (m w).0 f w (m w).1 (first.same w) rest;
  }

  pub Keeps-pure : {A : Type 0} (a : A) → Keeps (pure a)
  unfolding pure
  Keeps-pure a = record { same = λ w. (refl, refl) }

  pub Keeps-read : {A : Type 0} (f : s.repo.State → Result A) → Keeps (read f)
  unfolding read
  Keeps-read f = record { same = λ w. (refl, refl) }

  pub Keeps-lift : {A : Type 0} (r : Result A) → Keeps (lift r)
  unfolding lift
  Keeps-lift r = record { same = λ w. (refl, refl) }

  pub Keeps-now : Keeps now
  unfolding now
  Keeps-now = record { same = λ w. (refl, refl) }

  pub Keeps-new_uuid : Keeps new_uuid
  unfolding new_uuid
  Keeps-new_uuid = record { same = λ w. (refl, refl) }

  pub Keeps-if :
      {A : Type 0} (b : Bool) {m k : Action s A} → Keeps m → Keeps k → Keeps (if b then m else k)
  Keeps-if true first second = first
  Keeps-if false first second = second
