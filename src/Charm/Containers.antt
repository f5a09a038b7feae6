-- ===== src/Charm/Containers.antt =====
-- The resources that an archive's containers add to its manifest.
use charm_registry.Prelude.{
  String, ◌≡◌, ◌⊎◌, inl, inr, some, [], ◌∷◌, ◌==◌, eq_iff, arith, All, Bool-cases, Option-cases,
}
use charm_registry.Prelude.Maps.{Map, lookup, lookup-insert}
use charm_registry.Core.{CharmContainer, CharmManifest, CharmResourceDeclaration}
use charm_registry.Charm.{add_container, add_containers, populate_container_resources}

abbrev implied : CharmResourceDeclaration
implied = record { type = "oci-image"; description = ""; filename = ""; upstream_source = "" }

-- One container keeps every declaration.
add_container-keeps :
    (name : String) (d : CharmResourceDeclaration) (c : CharmContainer)
    (m : Map CharmResourceDeclaration)
    → lookup name m ≡ some d
    → lookup name (add_container c m) ≡ some d
unfolding add_container
add_container-keeps name d c m h =
    ground (arith, lookup-insert c.resource name implied m, eq_iff c.resource name)

add_containers-keeps :
    (name : String) (d : CharmResourceDeclaration) (cs : Map CharmContainer)
    (m : Map CharmResourceDeclaration)
    → lookup name m ≡ some d
    → lookup name (add_containers cs m) ≡ some d
unfolding add_containers
add_containers-keeps name d [] m h = h
add_containers-keeps name d ((k, c) ∷ cs) m h =
    add_containers-keeps name d cs (add_container c m) (add_container-keeps name d c m h)

-- The container names no resource, or one that is declared.
abbrev pub IsDeclared : Map CharmResourceDeclaration → String × CharmContainer → Type 0
IsDeclared m (k, c) =
    (c.resource ≡ "") ⊎ ((d : CharmResourceDeclaration) × (lookup c.resource m ≡ some d))

add_container-IsDeclared :
    (k : String) (c : CharmContainer) (m : Map CharmResourceDeclaration)
    → IsDeclared (add_container c m) (k, c)
add_container-IsDeclared k c m = elim (Bool-cases (c.resource == "")) [
  | inl no_resource ↦ inl ((eq_iff c.resource "").0 no_resource)
  | inr resource ↦ elim (Option-cases (lookup c.resource m)) [
    | inr (d, declared) ↦ inr (d, add_container-keeps c.resource d c m declared)
    | inl missing ↦ inr (
      implied,
      unfold add_container in
          ground
            (arith, lookup-insert c.resource c.resource implied m, eq_iff c.resource c.resource),
    )
  ]
]

add_containers-IsDeclared :
    (cs : Map CharmContainer) (m : Map CharmResourceDeclaration)
    → All (IsDeclared (add_containers cs m)) cs
unfolding add_containers
add_containers-IsDeclared [] m = tt
add_containers-IsDeclared ((k, c) ∷ cs) m = (
  elim (add_container-IsDeclared k c m) [
    | inl no_resource ↦ inl no_resource
    | inr (d, declared) ↦ inr (d, add_containers-keeps c.resource d cs (add_container c m) declared)
  ],
  add_containers-IsDeclared cs (add_container c m),
)

-- populateContainerResources declares the resource of every container that its loop visits, where the
-- container names one.
pub populate_container_resources-IsDeclared :
    (visit : Map CharmContainer → Map CharmContainer) (manifest : CharmManifest)
    → All
        (IsDeclared (populate_container_resources visit manifest).resources)
        (visit manifest.containers)
unfolding populate_container_resources
populate_container_resources-IsDeclared visit manifest =
    add_containers-IsDeclared (visit manifest.containers) manifest.resources

-- populateContainerResources changes no declaration that the manifest has.
pub populate_container_resources-keeps :
    (visit : Map CharmContainer → Map CharmContainer) (manifest : CharmManifest) (name : String)
    (d : CharmResourceDeclaration)
    → lookup name manifest.resources ≡ some d
    → lookup name (populate_container_resources visit manifest).resources ≡ some d
unfolding populate_container_resources
populate_container_resources-keeps visit manifest name d h =
    add_containers-keeps name d (visit manifest.containers) manifest.resources h
