-- ===== src/Service/Revisions/Numbering.antt =====
-- The numbers of a package's revisions, on the repository in memory.
use mathlib.Core.Path.{subst}
use charm_registry.Prelude.{
  ℕ, ◌+◌, ◌≡◌, inl, inr, String, Option, none, some, List, [], ◌∷◌, ◌++◌, arith, ℤ, pos, eq_int,
  eq_int_iff, eq_nat_iff, length, get_last?, find?, ap, sym, ◌∙◌, eq_iff, ◌==◌, Bool-cases,
  if◌then◌else◌,
}
use charm_registry.Prelude.Maps.{lookup, lookup-insert}
use charm_registry.Core.{Revision}
use charm_registry.Errors.{Result, ok, err, not_found, ok_injective}
use charm_registry.Repo.Memory.State.{Memory, slice_or_nil, new_memory}
use charm_registry.Repo.Memory.Revisions.{
  revisions_of, create_revision, get_latest_revision, get_revision_by_number,
}
use charm_registry.Service.Revisions.{next_number}

-- The revisions are numbered from `n` on.
abbrev pub NumberedFrom : ℕ → List Revision → Type 0
NumberedFrom n [] = Unit
NumberedFrom n (r ∷ rs) = (r.revision ≡ pos n) × NumberedFrom (n + 1) rs

-- The revisions of every package are numbered from 1 on.
abbrev pub IsNumbered : Memory → Type 0
IsNumbered m = (package_id : String) → NumberedFrom 1 (revisions_of package_id m)

latest : List Revision → Result Revision
latest rs = elim (get_last? rs) [ none ↦ err not_found | some item ↦ ok item ]

next_of :
    (n : ℕ) (rs : List Revision) (r : Revision)
    → NumberedFrom n (r ∷ rs)
    → next_number (latest (r ∷ rs)) ≡ ok (pos (n + 1 + length rs))
unfolding latest next_number
next_of n [] r h = ground arith
next_of n (r' ∷ rs) r h = ground (arith, next_of (n + 1) rs r' h.1)

NumberedFrom-append :
    (n : ℕ) (rs : List Revision) (r : Revision)
    → NumberedFrom n rs
    → r.revision ≡ pos (n + length rs)
    → NumberedFrom n (rs ++ r ∷ [])
NumberedFrom-append n [] r h e = (ground arith, tt)
NumberedFrom-append n (r' ∷ rs) r h e = (h.0, NumberedFrom-append (n + 1) rs r h.1 (ground arith))

abbrev first_found : Option Revision → Result Revision
first_found none = err not_found
first_found (some item) = ok item

abbrev found_in : ℤ → List Revision → Result Revision
found_in number rs = first_found (find? (λ item. eq_int item.revision number) rs)

find?-last :
    (n : ℕ) (rs : List Revision) (r : Revision)
    → NumberedFrom n rs
    → r.revision ≡ pos (n + length rs)
    → find? (λ item. eq_int item.revision (pos (n + length rs))) (rs ++ r ∷ []) ≡ some r
find?-last n [] r h e = ground (arith, eq_int_iff r.revision (pos (n + 0)))
find?-last n (r' ∷ rs) r h e = ground (
  arith,
  find?-last (n + 1) rs r h.1,
  eq_int_iff r'.revision (pos (n + length (r' ∷ rs))),
  eq_nat_iff n (n + length (r' ∷ rs)),
)

if_same : {A : Type 0} (k : String) (a b : A) → (if k == k then a else b) ≡ a
if_same k a b = ground (arith, eq_iff k k)

revisions_of-create_revision :
    (package_id : String) (r : Revision) (m m' : Memory)
    → create_revision r m ≡ ok (tt, m')
    → revisions_of package_id m' ≡ (
        if r.package_id == package_id
        then revisions_of package_id m ++ r ∷ []
        else revisions_of package_id m)
unfolding create_revision revisions_of
revisions_of-create_revision package_id r m m' h =
    ap (λ x. slice_or_nil (lookup package_id x.1.revisions)) (sym (ok_injective h))
    ∙ ground (
      arith,
      eq_iff r.package_id package_id,
      lookup-insert r.package_id package_id (revisions_of r.package_id m ++ r ∷ []) m.revisions,
    )

next_of_list :
    (rs : List Revision) (number : ℤ)
    → NumberedFrom 1 rs
    → next_number (latest rs) ≡ ok number
    → number ≡ pos (1 + length rs)
unfolding latest next_number
next_of_list [] number h e = sym (ok_injective e)
next_of_list (r ∷ rs) number h e = ok_injective (sym e ∙ next_of 1 rs r h) ∙ ap pos (omega arith)

next_of_package :
    (package_id : String) (m : Memory) (number : ℤ)
    → IsNumbered m
    → next_number (get_latest_revision package_id m) ≡ ok number
    → number ≡ pos (1 + length (revisions_of package_id m))
unfolding get_latest_revision latest
next_of_package package_id m number h e =
    next_of_list (revisions_of package_id m) number (h package_id) e

-- A memory with no revisions is numbered.
pub IsNumbered-new_memory : IsNumbered new_memory
unfolding revisions_of lookup
IsNumbered-new_memory package_id = tt

-- The numbering of PushRevision, on a repository in memory where the revisions of every package are
-- numbered from 1 on: once the revision with the next number is stored, they still are, and the
-- number finds that revision.
pub create_revision-IsNumbered :
    (r : Revision) (m m' : Memory)
    → IsNumbered m
    → next_number (get_latest_revision r.package_id m) ≡ ok r.revision
    → create_revision r m ≡ ok (tt, m')
    → IsNumbered m' × (get_revision_by_number r.package_id r.revision m' ≡ ok r)
unfolding get_revision_by_number
create_revision-IsNumbered r m m' numbered e h =
    let number = next_of_package r.package_id m r.revision numbered e in
    let own =
      revisions_of-create_revision r.package_id r m m' h
      ∙ if_same r.package_id (revisions_of r.package_id m ++ r ∷ [])
          (revisions_of r.package_id m) in
    (
      λ package_id. elim (Bool-cases (r.package_id == package_id)) [
        | inr other ↦
            subst (NumberedFrom 1)
              (sym (revisions_of-create_revision package_id r m m' h ∙ ground arith))
              (numbered package_id)
        | inl same ↦
            subst (λ k. NumberedFrom 1 (revisions_of k m'))
              ((eq_iff r.package_id package_id).0 same)
              (subst (NumberedFrom 1) (sym own) (
                NumberedFrom-append 1 (revisions_of r.package_id m) r (numbered r.package_id)
                  number))
      ],
      ap (λ rs. found_in r.revision rs) own
          ∙ ap (λ n. found_in n (revisions_of r.package_id m ++ r ∷ [])) number
          ∙ ap first_found
              (find?-last 1 (revisions_of r.package_id m) r (numbered r.package_id) number),
    )
