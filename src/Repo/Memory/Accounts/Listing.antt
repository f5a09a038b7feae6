-- ===== src/Repo/Memory/Accounts/Listing.antt =====
-- What ListStoreTokens returns.
use mathlib.Core.List.{Perm}
use mathlib.Core.List.Perm
use charm_registry.Prelude.{
  ◌≤◌, String, ◌≡◌, refl, Bool, List, [], ◌∷◌, arith, Bool-cases, inl, inr, leb, keep,
}
use charm_registry.Prelude.Filters.{keep-perm}
use charm_registry.Core.{Time, StoreToken}
use charm_registry.Errors.{ok}
use charm_registry.Repo.Memory.State.{Memory, Platform}
use charm_registry.Repo.Memory.Accounts.{
  is_listed, insert_by_time, sort_by_time, list_store_tokens, values,
}

-- Each token is followed by tokens that became valid no earlier.
abbrev pub IsSorted : List StoreToken → Type 0
IsSorted [] = Unit
IsSorted (t ∷ []) = Unit
IsSorted (t ∷ u ∷ us) = (t.valid_since ≤ u.valid_since) × IsSorted (u ∷ us)

insert_by_time-later :
    (t u v : StoreToken) (vs : List StoreToken)
    → u.valid_since ≤ t.valid_since
    → IsSorted (u ∷ v ∷ vs)
    → IsSorted (insert_by_time t (v ∷ vs))
    → IsSorted (u ∷ insert_by_time t (v ∷ vs))
unfolding insert_by_time
insert_by_time-later t u v vs ge h k = elim (Bool-cases (leb t.valid_since v.valid_since)) [
  | inl le ↦ rw (le, insert_by_time) (ge, (ground arith, h.1))
  | inr gt ↦ rw (gt, insert_by_time) (h.0, rw (gt, insert_by_time) at k)
]

insert_by_time-IsSorted :
    (t : StoreToken) (us : List StoreToken) → IsSorted us → IsSorted (insert_by_time t us)
unfolding insert_by_time
insert_by_time-IsSorted t [] h = tt
insert_by_time-IsSorted t (u ∷ []) h = elim (Bool-cases (leb t.valid_since u.valid_since)) [
  | inl le ↦ rw (le, insert_by_time) (ground arith, tt)
  | inr gt ↦ rw (gt, insert_by_time) (ground arith, tt)
]
insert_by_time-IsSorted t (u ∷ v ∷ vs) h = elim (Bool-cases (leb t.valid_since u.valid_since)) [
  | inl le ↦ rw (le, insert_by_time) (ground arith, h)
  | inr gt ↦
      rw (gt, insert_by_time)
        (insert_by_time-later t u v vs (ground arith) h (insert_by_time-IsSorted t (v ∷ vs) h.1))
]

insert_by_time-perm : (t : StoreToken) (us : List StoreToken) → Perm (insert_by_time t us) (t ∷ us)
unfolding insert_by_time
insert_by_time-perm t [] = Perm.refl (t ∷ [])
insert_by_time-perm t (u ∷ us) = elim (Bool-cases (leb t.valid_since u.valid_since)) [
  | inl le ↦ rw (le, insert_by_time) (Perm.refl (t ∷ u ∷ us))
  | inr gt ↦
      rw (gt, insert_by_time)
        (Perm.trans (Perm.cons u (insert_by_time-perm t us)) (Perm.swap t u us))
]

sort_by_time-perm : (ts : List StoreToken) → Perm (sort_by_time ts) ts
unfolding sort_by_time
sort_by_time-perm [] = Perm.refl []
sort_by_time-perm (t ∷ ts) =
    Perm.trans (insert_by_time-perm t (sort_by_time ts)) (Perm.cons t (sort_by_time-perm ts))

sort_by_time-IsSorted : (ts : List StoreToken) → IsSorted (sort_by_time ts)
unfolding sort_by_time
sort_by_time-IsSorted [] = tt
sort_by_time-IsSorted (t ∷ ts) =
    insert_by_time-IsSorted t (sort_by_time ts) (sort_by_time-IsSorted ts)

module _ (order : Platform) where
  -- ListStoreTokens returns the account's tokens, the active ones or all as asked, each token as
  -- often as the state holds it, by the time from which they are valid.
  pub list_store_tokens-listing :
      (now : Time) (acc : String) (incl : Bool) (m : Memory)
      → (ts : List StoreToken) × (list_store_tokens order now acc incl m ≡ ok ts)
        × IsSorted ts
        × Perm ts (keep (is_listed now acc incl) (values m.tokens))
  unfolding list_store_tokens
  list_store_tokens-listing now acc incl m =
      let shown = keep (is_listed now acc incl) (values (order.visit m.tokens)) in
      (
        sort_by_time shown,
        refl,
        sort_by_time-IsSorted shown,
        Perm.trans (sort_by_time-perm shown)
            (keep-perm (is_listed now acc incl) (Perm.map (λ e. e.1) (order.visit-perm m.tokens))),
      )
