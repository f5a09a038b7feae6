-- ===== src/Service/Links/Merge.antt =====
-- What mergeLinks keeps and adds.
use mathlib.Core.Path.{subst}
use charm_registry.Prelude.{
  String, ◌≡◌, ◌≢◌, refl, true, false, ◌||◌, List, [], ◌∷◌, ◌++◌, ◌==◌, eq_iff, eq_refl, arith,
  contains, if◌then◌else◌, Bool-cases, inl, inr, ◌⊎◌, All, append_assoc,
}
use charm_registry.Prelude.Maps.{Map, lookup-insert}
use charm_registry.Service.Links.{
  unique_append, add_link, add_link_if, add_websites, merge_links, links_at,
}

contains-append :
    (k v : String) (xs : List String) → contains k (xs ++ v ∷ []) ≡ (contains k xs || v == k)
contains-append k v [] = ground arith
contains-append k v (x ∷ xs) = ground (arith, contains-append k v xs)

contains-unique_append :
    (k v : String) (xs : List String) → contains k (unique_append xs v) ≡ (contains k xs || v == k)
unfolding unique_append
contains-unique_append k v xs = ground (arith, contains-append k v xs, eq_iff v k)

links_at-add_link :
    (j k v : String) (m : Map (List String))
    → links_at j (add_link k m v)
      ≡ (if k == j then unique_append (links_at k m) v else links_at j m)
unfolding add_link
links_at-add_link j k v m = ground (arith, lookup-insert k j (unique_append (links_at k m) v) m)

-- One addition keeps every link that was there.
contains-add_link :
    (j k v l : String) (m : Map (List String))
    → contains l (links_at j m) ≡ true
    → contains l (links_at j (add_link k m v)) ≡ true
contains-add_link j k v l m h =
    rw links_at-add_link (ground (arith, eq_iff k j, contains-unique_append l v (links_at k m)))

contains-add_link_self :
    (k v : String) (m : Map (List String)) → contains v (links_at k (add_link k m v)) ≡ true
contains-add_link_self k v m =
    rw links_at-add_link
      (ground (arith, eq_refl k, eq_refl v, contains-unique_append v v (links_at k m)))

contains-add_link_if :
    (j k v l : String) (m : Map (List String))
    → contains l (links_at j m) ≡ true
    → contains l (links_at j (add_link_if k m v)) ≡ true
unfolding add_link_if
contains-add_link_if j k v l m h = ground (arith, contains-add_link j k v l m)

contains-add_link_if_self :
    (k v : String) (m : Map (List String))
    → v ≢ ""
    → contains v (links_at k (add_link_if k m v)) ≡ true
unfolding add_link_if
contains-add_link_if_self k v m h = ground (arith, eq_iff v "", contains-add_link_self k v m)

contains-add_websites :
    (j l : String) (ws : List String) (m : Map (List String))
    → contains l (links_at j m) ≡ true
    → contains l (links_at j (add_websites m ws)) ≡ true
unfolding add_websites
contains-add_websites j l [] m h = h
contains-add_websites j l (w ∷ ws) m h =
    contains-add_websites j l ws (add_link "website" m w) (contains-add_link j "website" w l m h)

contains-add_websites_self :
    (l : String) (ws : List String) (m : Map (List String))
    → contains l ws ≡ true
    → contains l (links_at "website" (add_websites m ws)) ≡ true
unfolding add_websites
contains-add_websites_self l [] m h = cc
contains-add_websites_self l (w ∷ ws) m h = elim (Bool-cases (w == l)) [
  | inl same ↦
      contains-add_websites "website" l ws (add_link "website" m w)
        (rw (← (eq_iff w l).0 same) (contains-add_link_self "website" w m))
  | inr other ↦ contains-add_websites_self l ws (add_link "website" m w) (ground arith)
]

-- mergeLinks loses no link of the package: a link that stood under a key stands there afterwards.
pub merge_links_keeps :
    (key link : String) (existing : Map (List String)) (docs issues source : String)
    (websites : List String)
    → contains link (links_at key existing) ≡ true
    → contains link (links_at key (merge_links existing docs issues source websites)) ≡ true
unfolding merge_links
merge_links_keeps key link m docs issues source ws h = contains-add_websites key link ws _ (
    contains-add_link_if key "source" source link _ (
      contains-add_link_if key "issues" issues link _
        (contains-add_link_if key "docs" docs link m h)))

or_empty : {P : Type 0} (v : String) → (v ≢ "" → P) → (v ≡ "") ⊎ P
or_empty v f = elim (Bool-cases (v == "")) [
  | inl empty ↦ inl ((eq_iff v "").0 empty)
  | inr some_link ↦ inr (f (λ e. cc ((eq_iff v "").1 e)))
]

contains-middle : (v : String) (ws vs : List String) → contains v (ws ++ v ∷ vs) ≡ true
contains-middle v [] vs = ground (arith, eq_refl v)
contains-middle v (w ∷ ws) vs = ground (arith, contains-middle v ws vs)

contains_each : (ws vs : List String) → All (λ w. contains w (ws ++ vs) ≡ true) vs
contains_each ws [] = tt
contains_each ws (v ∷ vs) = (
  contains-middle v ws vs,
  subst (λ l. All (λ w. contains w l ≡ true) vs) (append_assoc ws (v ∷ []) vs)
      (contains_each (ws ++ v ∷ []) vs),
)

websites_added :
    (vs : List String) (ws : List String) (m : Map (List String))
    → All (λ w. contains w ws ≡ true) vs
    → All (λ w. contains w (links_at "website" (add_websites m ws)) ≡ true) vs
websites_added [] ws m h = tt
websites_added (v ∷ vs) ws m h = (contains-add_websites_self v ws m h.0, websites_added vs ws m h.1)

-- The links of the manifest are under their keys afterwards: each of docs, issues and source that
-- is not empty, and every website.
pub merge_links_adds :
    (existing : Map (List String)) (docs issues source : String) (websites : List String)
    → let out = merge_links existing docs issues source websites in
      ((docs ≡ "") ⊎ (contains docs (links_at "docs" out) ≡ true))
      × ((issues ≡ "") ⊎ (contains issues (links_at "issues" out) ≡ true))
      × ((source ≡ "") ⊎ (contains source (links_at "source" out) ≡ true))
      × All (λ w. contains w (links_at "website" out) ≡ true) websites
unfolding merge_links
merge_links_adds m docs issues source ws = (
  or_empty docs (λ h. contains-add_websites "docs" docs ws _ (
      contains-add_link_if "docs" "source" source docs _ (
        contains-add_link_if "docs" "issues" issues docs _
          (contains-add_link_if_self "docs" docs m h)))),
  or_empty issues (λ h. contains-add_websites "issues" issues ws _ (
      contains-add_link_if "issues" "source" source issues _
        (contains-add_link_if_self "issues" issues _ h))),
  or_empty source (λ h.
      contains-add_websites "source" source ws _ (contains-add_link_if_self "source" source _ h)),
  websites_added ws ws _ (contains_each [] ws),
)

-- No key holds a link twice.
abbrev pub HasNoRepeats : List String → Type 0
HasNoRepeats [] = Unit
HasNoRepeats (x ∷ xs) = (contains x xs ≡ false) × HasNoRepeats xs

HasNoRepeats-append :
    (xs : List String) (v : String)
    → HasNoRepeats xs
    → contains v xs ≡ false
    → HasNoRepeats (xs ++ v ∷ [])
HasNoRepeats-append [] v d h = (refl, tt)
HasNoRepeats-append (x ∷ xs) v d h = (
  ground (arith, contains-append x v xs, eq_iff x v, eq_iff v x),
  HasNoRepeats-append xs v d.1 (ground arith),
)

-- uniqueAppend to a list with no repeats gives a list with no repeats.
pub unique_append-HasNoRepeats :
    (xs : List String) (v : String) → HasNoRepeats xs → HasNoRepeats (unique_append xs v)
unfolding unique_append
unique_append-HasNoRepeats xs v d = elim (Bool-cases (contains v xs)) [
  | inl old ↦ rw (old, unique_append) d
  | inr new ↦ rw (new, unique_append) (HasNoRepeats-append xs v d new)
]
