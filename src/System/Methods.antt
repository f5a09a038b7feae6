-- ===== src/System/Methods.antt =====
-- Methods of internal/service on the repository in memory, as runs of steps.
pub mod Resources
pub mod Calls
use mathlib.Core.Path.{subst}
use charm_registry.Prelude.{ℕ, ◌+◌, String, ◌≡◌, refl, sym, ap, Option, some, List, [], ◌∷◌}
use charm_registry.Core.{Identity, Track, StoreToken, Time}
use charm_registry.Config.{Config}
use charm_registry.Errors.{Result, ok, err}
use charm_registry.Repo.Memory.State.{Memory, Platform}
use charm_registry.Repo.Memory.Packages
use charm_registry.Text.FilePath.{join}
use charm_registry.Repo.Memory.Accounts.{create_store_token}
use charm_registry.Repo.Memory.Packages.Catalogue.{delete, track, perform, IsProper, after}
use charm_registry.Service.Context.{
  Service, Runtime, World, Action, ◌>>=◌, continue, write, read, lift, now, new_uuid, pure,
  store_db, store_file, put_blob, get_blob, random_text,
}
use charm_registry.Service.Context.Keeping.{
  Keeps, Keeps-pure, Keeps-read, Keeps-lift, Keeps-now, Keeps-new_uuid,
}
use charm_registry.Service.Tokens.{
  IssueTokenRequest, issue_store_token, exchange_store_token, revoke_store_token, issued_token,
  exchange_request,
}
use charm_registry.Auth.Tokens.{new_opaque_token}
use charm_registry.Service.Revisions.{create_upload, pending_upload}
use charm_registry.Service.Resources.{
  PushResourceRequest, ResourceRevisionUpdate, push_resource, update_one, update_each,
  update_resource_revisions, new_resource_revision, next_resource_number,
}
use charm_registry.Service.Revisions.{status_url}
use charm_registry.Service.Packages.{unregister_package}
use charm_registry.Service.Releases.{create_tracks, dated_tracks}
use charm_registry.Service.Revisions.Uploads.{in_memory}
use charm_registry.System.Steps.{
  Step, Reach, here, next, storing_token, revoking, changing, uploading, reviewing, adding_resource,
  changing_resource,
}

module _ (cfg : Config) (runtime : Runtime) (order : Platform) where
  abbrev s : Service
  s = in_memory cfg runtime order

  pub Reach-Reach : {a b c : Memory} → Reach order a b → Reach order b c → Reach order a c
  Reach-Reach first here = first
  Reach-Reach first (next rest step) = next (Reach-Reach first rest) step

  -- Whatever the method answers, the state after it is reached by steps from the state before.
  pub record RunsBySteps {A : Type 0} (m : Action s A) : Type 0 where
    pub run : (w : World s) → Reach order w.db (m w).1.db

  continue_run :
      {A B : Type 0} (r : Result A) (f : A → Action s B) (a : Memory) (w : World s)
      → Reach order a w.db
      → ((x : A) → RunsBySteps (f x))
      → Reach order a (continue r f w).1.db
  continue_run (ok x) f a w before rest = Reach-Reach before ((rest x).run w)
  continue_run (err e) f a w before rest = before

  RunsBySteps-bind :
      {A B : Type 0} {m : Action s A} {f : A → Action s B}
      → RunsBySteps m
      → ((x : A) → RunsBySteps (f x))
      → RunsBySteps (m >>= f)
  unfolding ◌>>=◌
  RunsBySteps-bind {m = m} {f = f} first rest = record {
    run = λ w. continue_run (m w).0 f w.db (m w).1 (first.run w) rest;
  }

  RunsBySteps-Keeps : {A : Type 0} {m : Action s A} → Keeps m → RunsBySteps m
  RunsBySteps-Keeps keeps = record {
    run = λ w. subst (Reach order w.db) (sym (keeps.same w).0) here;
  }

  -- A call of the repository whose every success is a step.
  pub record IsStep {A : Type 0} (f : Memory → Result (A × Memory)) : Type 0 where
    pub step : (a b : Memory) (x : A) → f a ≡ ok (x, b) → Step order a b

  stored_run :
      {A : Type 0} (f : Memory → Result (A × Memory)) (w : World s) (r : Result (A × Memory))
      → IsStep f
      → f w.db ≡ r
      → Reach order w.db (store_db {s = s} r w).1.db
  stored_run f w (ok (x, b)) step done = next here (step.step w.db b x done)
  stored_run f w (err e) step done = here

  pub RunsBySteps-write :
      {A : Type 0} {f : Memory → Result (A × Memory)} → IsStep f → RunsBySteps (write {s = s} f)
  unfolding write
  RunsBySteps-write {f = f} step = record { run = λ w. stored_run f w (f w.db) step refl }

  put_run :
      (w : World s) (r : Result (Unit {0} × s.blobs.State))
      → Reach order w.db (store_file {s = s} r w).1.db
  put_run w (ok (a, files)) = here
  put_run w (err e) = here

  put_blob-RunsBySteps : (key payload kind : String) → RunsBySteps (put_blob key payload kind)
  unfolding put_blob
  put_blob-RunsBySteps key payload kind = record { run = λ w. put_run w _ }

  pub get_blob-RunsBySteps : (key : String) → RunsBySteps (get_blob key)
  unfolding get_blob
  get_blob-RunsBySteps key = record { run = λ w. here }

  new_opaque_token-RunsBySteps : RunsBySteps (new_opaque_token s)
  unfolding new_opaque_token random_text
  new_opaque_token-RunsBySteps =
      RunsBySteps-bind {m = random_text {s = s}} (record { run = λ w. here })
        λ seed. RunsBySteps-Keeps (Keeps-pure _)

  -- The rules that take a method apart, by the kind of its first action.
  module _ {A B : Type 0} where
    pub after_lift :
        (r : Result A) (f : A → Action s B)
        → ((x : A) → RunsBySteps (f x))
        → RunsBySteps (lift {s = s} r >>= f)
    after_lift r f = RunsBySteps-bind (RunsBySteps-Keeps (Keeps-lift r))

    pub after_read :
        (g : Memory → Result A) (f : A → Action s B)
        → ((x : A) → RunsBySteps (f x))
        → RunsBySteps (read {s = s} g >>= f)
    after_read g f = RunsBySteps-bind (RunsBySteps-Keeps (Keeps-read g))

    pub after_write :
        (g : Memory → Result (A × Memory)) (f : A → Action s B)
        → IsStep g
        → ((x : A) → RunsBySteps (f x))
        → RunsBySteps (write {s = s} g >>= f)
    after_write g f step = RunsBySteps-bind (RunsBySteps-write step)

    pub after_call :
        (m : Action s A) (f : A → Action s B)
        → RunsBySteps m
        → ((x : A) → RunsBySteps (f x))
        → RunsBySteps (m >>= f)
    after_call m f = RunsBySteps-bind

  module _ {B : Type 0} where
    pub after_now :
        (f : Time → Action s B) → ((x : Time) → RunsBySteps (f x)) → RunsBySteps (now {s = s} >>= f)
    after_now f = RunsBySteps-bind (RunsBySteps-Keeps Keeps-now)

    pub after_uuid :
        (f : String → Action s B)
        → ((x : String) → RunsBySteps (f x))
        → RunsBySteps (new_uuid {s = s} >>= f)
    after_uuid f = RunsBySteps-bind (RunsBySteps-Keeps Keeps-new_uuid)

  pub answer : {A : Type 0} (x : A) → RunsBySteps (pure {s = s} x)
  answer x = RunsBySteps-Keeps (Keeps-pure x)

  storing_token-IsStep : (token : StoreToken) → IsStep (create_store_token token)
  storing_token-IsStep token = record { step = λ a b x done. storing_token token done }

  pub issue_store_token-RunsBySteps :
      (identity : Identity) (req : IssueTokenRequest)
      → RunsBySteps (issue_store_token s identity req)
  unfolding issue_store_token
  issue_store_token-RunsBySteps identity req = after_lift _ _ λ x.
      after_call _ _ new_opaque_token-RunsBySteps λ drawn. after_now _ λ t. after_uuid _ λ id.
        let token = issued_token identity req drawn.1 id t in
        after_write _ _ (storing_token-IsStep token) λ y. answer (drawn.0, token)

  pub exchange_store_token-RunsBySteps :
      (identity : Identity) (description : Option String)
      → RunsBySteps (exchange_store_token s identity description)
  unfolding exchange_store_token
  exchange_store_token-RunsBySteps identity description =
      after_call _ _
        (issue_store_token-RunsBySteps identity (exchange_request identity.token description))
        λ issued. answer issued.0

  pub revoke_store_token-RunsBySteps :
      (identity : Identity) (session_id : String)
      → RunsBySteps (revoke_store_token s identity session_id)
  unfolding revoke_store_token
  revoke_store_token-RunsBySteps identity session_id = after_lift _ _ λ x. after_now _ λ t.
      RunsBySteps-write (record {
        step = λ a b y done. revoking t identity.account.id session_id identity.account.id done;
      })

  pub create_upload-RunsBySteps :
      (filename payload : String) → RunsBySteps (create_upload s filename payload)
  unfolding create_upload
  create_upload-RunsBySteps filename payload = after_now _ λ t. after_uuid _ λ id.
      let key = join ("uploads" ∷ id ∷ filename ∷ []) in
      let upload = pending_upload s id filename key payload t in
      after_call _ _ (put_blob-RunsBySteps key payload "application/octet-stream") λ x.
        after_write _ _ (record { step = λ a b y done. uploading upload done }) λ y. answer upload

  delete_perform :
      (package_id : String) (a b : Memory)
      → Packages.delete_package package_id a ≡ ok (tt, b)
      → perform (delete package_id) a ≡ ok b
  unfolding perform
  delete_perform package_id a b done = ap after done

  pub unregister_package-RunsBySteps :
      (identity : Identity) (name : String) → RunsBySteps (unregister_package s identity name)
  unfolding unregister_package IsProper
  unregister_package-RunsBySteps identity name = after_read _ _ λ pkg. after_read _ _ λ x.
      after_read _ _ λ revisions. after_lift _ _ λ y.
        after_write _ _
          (record {
            step = λ a b z done. changing (delete pkg.id) tt (delete_perform pkg.id a b done);
          })
          λ z. answer pkg.id

  tracks_perform :
      (package_id : String) (tracks : List Track) (n : ℕ) (a b : Memory)
      → Packages.create_tracks package_id tracks a ≡ ok (n, b)
      → perform (track package_id tracks) a ≡ ok b
  unfolding perform
  tracks_perform package_id tracks n a b done = ap after done

  pub create_tracks-RunsBySteps :
      (identity : Identity) (name : String) (tracks : List Track)
      → RunsBySteps (create_tracks s identity name tracks)
  unfolding create_tracks IsProper
  create_tracks-RunsBySteps identity name tracks = after_read _ _ λ pkg. after_read _ _ λ x.
      after_now _ λ t. RunsBySteps-write (record {
        step = λ a b n done.
            changing (track pkg.id (dated_tracks t tracks)) tt
              (tracks_perform pkg.id (dated_tracks t tracks) n a b done);
      })
