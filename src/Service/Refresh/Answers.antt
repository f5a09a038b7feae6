-- ===== src/Service/Refresh/Answers.antt =====
-- The answers of Refresh.
use charm_registry.Prelude.{String, ◌≡◌, refl, List, [], ◌∷◌, arith, sym, ap, ◌∙◌, false}
use charm_registry.Core.{Identity}
use charm_registry.Errors.{
  Result, ok, err, each, ok_injective, >>=-eq-ok, service, not_found, conflict, failure,
}
use charm_registry.Service.Context.{Service}
use charm_registry.Service.Guards.{require_package_view}
use charm_registry.Service.Refresh.{
  RefreshAction, RefreshItem, RefreshAnswer, refreshed, refused, answer_of, resolve_item,
  resolve_refresh_action, refresh, resolve_package_for_refresh, resolve_release_and_revision,
  selected_resources, refresh_item,
}

-- The key that an answer carries.
abbrev pub answer_key : RefreshAnswer → String
answer_key (refreshed item) = item.instance_key
answer_key (refused key e) = key

module _ (s : Service) where
  -- The keys of a list of actions, and of a list of answers.
  abbrev pub asked_keys : List RefreshAction → List String
  asked_keys [] = []
  asked_keys (action ∷ actions) = action.instance_key ∷ asked_keys actions

  abbrev pub answered_keys : List RefreshAnswer → List String
  answered_keys [] = []
  answered_keys (answer ∷ answers) = answer_key answer ∷ answered_keys answers

  item_key :
      (identity : Identity) (action : RefreshAction) (db : s.repo.State) (item : RefreshItem)
      → resolve_item s identity action db ≡ ok item
      → item.instance_key ≡ action.instance_key
  unfolding resolve_item refresh_item
  item_key identity action db item h =
      let (pkg, found, h1) = >>=-eq-ok (resolve_package_for_refresh s action db) _ h in
      let (_, let_in, h2) = >>=-eq-ok (require_package_view s.repo identity pkg false db) _ h1 in
      let (chosen, resolved, h3) = >>=-eq-ok (resolve_release_and_revision s pkg action db) _ h2 in
      let (resources, selected, h4) =
        >>=-eq-ok (selected_resources s pkg action chosen.release db) _ h3 in
      ap (λ x. x.instance_key) (sym (ok_injective h4))

  answer_of_key :
      (identity : Identity) (action : RefreshAction) (db : s.repo.State) (answer : RefreshAnswer)
      (r : Result RefreshItem)
      → resolve_item s identity action db ≡ r
      → answer_of action.instance_key r ≡ ok answer
      → answer_key answer ≡ action.instance_key
  unfolding answer_of
  answer_of_key identity action db answer (ok item) made h =
      ground (arith, item_key identity action db item made)
  answer_of_key identity action db answer (err (service e)) made h = ground arith
  answer_of_key identity action db answer (err not_found) made h = cc
  answer_of_key identity action db answer (err conflict) made h = cc
  answer_of_key identity action db answer (err (failure t)) made h = cc

  -- Refresh, when it answers, has one answer for each action, in the order of the actions and with
  -- the action's instance key.
  pub refresh-answered_keys :
      (identity : Identity) (actions : List RefreshAction) (db : s.repo.State)
      (answers : List RefreshAnswer)
      → refresh s identity actions db ≡ ok answers
      → answered_keys answers ≡ asked_keys actions
  unfolding refresh each resolve_refresh_action
  refresh-answered_keys identity [] db answers h = ap answered_keys (sym (ok_injective h))
  refresh-answered_keys identity (action ∷ actions) db answers h =
      let (answer, first, h1) = >>=-eq-ok (resolve_refresh_action s identity action db) _ h in
      let (rest, others, h2) = >>=-eq-ok (refresh s identity actions db) _ h1 in
      ap answered_keys (sym (ok_injective h2))
      ∙ ground (
        arith,
        refresh-answered_keys identity actions db rest others,
        answer_of_key identity action db answer (resolve_item s identity action db) refl first,
      )
