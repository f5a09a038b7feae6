-- ===== src/Repo/Memory/Packages/Tracks.antt =====
-- What CreateTracks does to the tracks of a package.
use charm_registry.Prelude.{
  ℕ, ◌+◌, String, ◌≡◌, refl, true, false, ◌||◌, List, [], ◌∷◌, ◌++◌, ◌==◌, eq_iff, arith, length,
  Any, ◌⊎◌, sym, length-append, Bool-cases, inl, inr,
}
use charm_registry.Core.{Track}
use charm_registry.Repo.Memory.Packages.{has_track, add_tracks}

-- Some track has the name.
abbrev pub IsTaken : String → List Track → Type 0
IsTaken name ts = Any (λ t. t.name ≡ name) ts

-- No two tracks have the same name.
abbrev pub HasDistinctNames : List Track → Type 0
HasDistinctNames [] = Unit
HasDistinctNames (t ∷ ts) = (¬ IsTaken t.name ts) × HasDistinctNames ts

IsTaken-append :
    (name : String) (xs : List Track) (t : Track)
    → IsTaken name (xs ++ t ∷ [])
    → IsTaken name xs ⊎ (t.name ≡ name)
IsTaken-append name [] t (inl same) = inr same
IsTaken-append name [] t (inr none) = absurd none
IsTaken-append name (x ∷ xs) t (inl same) = inl (inl same)
IsTaken-append name (x ∷ xs) t (inr later) = elim (IsTaken-append name xs t later) [
  | inl before ↦ inl (inr before)
  | inr last ↦ inr last
]

has_track-IsTaken :
    (name : String) (xs : List Track) → has_track name xs ≡ false → ¬ IsTaken name xs
unfolding has_track
has_track-IsTaken name [] new taken = taken
has_track-IsTaken name (x ∷ xs) new (inl same) = ground (arith, eq_iff x.name name)
has_track-IsTaken name (x ∷ xs) new (inr later) =
    has_track-IsTaken name xs (ground (arith, eq_iff x.name name)) later

has_track-append :
    (n : String) (xs : List Track) (t : Track)
    → has_track n (xs ++ t ∷ []) ≡ (has_track n xs || t.name == n)
unfolding has_track
has_track-append n [] t = ground arith
has_track-append n (x ∷ xs) t = ground (arith, has_track-append n xs t)

HasDistinctNames-append :
    (xs : List Track) (t : Track)
    → HasDistinctNames xs
    → ¬ IsTaken t.name xs
    → HasDistinctNames (xs ++ t ∷ [])
HasDistinctNames-append [] t d new = (λ taken. taken, tt)
HasDistinctNames-append (x ∷ xs) t d new = (
  λ taken. elim (IsTaken-append x.name xs t taken) [
    | inl before ↦ d.0 before
    | inr last ↦ new (inl (sym last))
  ],
  HasDistinctNames-append xs t d.1 (λ later. new (inr later)),
)

-- The loop of CreateTracks keeps the names of a package's tracks distinct, if they were.
pub add_tracks-HasDistinctNames :
    (xs ts : List Track) (n : ℕ) → HasDistinctNames xs → HasDistinctNames (add_tracks xs ts n).0
unfolding add_tracks
add_tracks-HasDistinctNames xs [] n d = d
add_tracks-HasDistinctNames xs (t ∷ ts) n d = elim (Bool-cases (has_track t.name xs)) [
  | inl old ↦ rw (old, add_tracks) (add_tracks-HasDistinctNames xs ts n d)
  | inr new ↦
      rw (new, add_tracks)
        (add_tracks-HasDistinctNames (xs ++ t ∷ []) ts (n + 1)
          (HasDistinctNames-append xs t d (has_track-IsTaken t.name xs new)))
]

-- The number that CreateTracks returns is the number of tracks that the package gained.
pub add_tracks-length :
    (xs ts : List Track) (n : ℕ)
    → length (add_tracks xs ts n).0 + n ≡ length xs + (add_tracks xs ts n).1
unfolding add_tracks
add_tracks-length xs [] n = refl
add_tracks-length xs (t ∷ ts) n = elim (Bool-cases (has_track t.name xs)) [
  | inl old ↦ rw (old, add_tracks) (add_tracks-length xs ts n)
  | inr new ↦
      rw (new, add_tracks)
        (omega (arith, add_tracks-length (xs ++ t ∷ []) ts (n + 1), length-append xs (t ∷ [])))
]

or_right :
    (n : String) (xs : List Track) (t : Track) (ts : List Track)
    → has_track t.name xs ≡ true
    → (has_track n xs || has_track n ts) ≡ (has_track n xs || has_track n (t ∷ ts))
unfolding has_track
or_right n [] t ts h = cc
or_right n (x ∷ xs) t ts h =
    ground (arith, or_right n xs t ts, eq_iff x.name t.name, eq_iff x.name n, eq_iff t.name n)

or_step :
    (n : String) (xs : List Track) (t : Track) (ts : List Track)
    → (has_track n (xs ++ t ∷ []) || has_track n ts) ≡ (has_track n xs || has_track n (t ∷ ts))
or_step n xs t ts = rw (has_track-append n xs t) (unfold has_track in ground arith)

-- After CreateTracks a package has exactly the track names that it had and those asked for.
pub add_tracks-has_track :
    (n : String) (xs ts : List Track) (k : ℕ)
    → has_track n (add_tracks xs ts k).0 ≡ (has_track n xs || has_track n ts)
unfolding add_tracks
add_tracks-has_track n xs [] k = unfold has_track in ground arith
add_tracks-has_track n xs (t ∷ ts) k = elim (Bool-cases (has_track t.name xs)) [
  | inl old ↦ rw (old, add_tracks) (rw (add_tracks-has_track n xs ts k) (or_right n xs t ts old))
  | inr new ↦
      rw (new, add_tracks)
        (rw (add_tracks-has_track n (xs ++ t ∷ []) ts (k + 1)) (or_step n xs t ts))
]
