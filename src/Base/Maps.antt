-- ===== src/Base/Maps.antt =====
-- Go's maps as association lists. `insert` first drops what stood under the key, so that a map
-- holds each key once (`Unique`); `retain` is a loop over the map that deletes some entries.
use mathlib.Core.Path.{◌≡◌, refl}
use mathlib.Core.Bool.{Bool, true}
use mathlib.Core.List.{List, [], ◌∷◌}
use mathlib.Core.Logic.{ite, ◌↔◌}
use mathlib.Core.Option.{Option, none, some}
use native.Mathlib.Omega.{arith}
use go_pass.Base.Tests.{if◌then◌else◌}
use go_pass.Base.Lists.{All}

-- What a loop that deletes the entries failing `keep` leaves under a key.
abbrev pub kept : {K V : Type 0} → (K → V → Bool) → K → Option V → Option V
kept keep k none = none
kept keep k (some v) = if keep k v then some v else none

pub kept-eq-some :
    {K V : Type 0} (keep : K → V → Bool) (k : K) (o : Option V) (v : V)
    → (kept keep k o ≡ some v) ↔ ((o ≡ some v) × (keep k v ≡ true))
kept-eq-some keep k none v = (λ e. cc, λ h. cc (h.0))
kept-eq-some keep k (some w) v = ground arith

unfoldable pub retain : {K V : Type 0} → (K → V → Bool) → List (K × V) → List (K × V)
retain keep [] = []
retain keep (e ∷ m) = if keep e.0 e.1 then e ∷ retain keep m else retain keep m

module _ {K V : Type 0} (dec : Discrete K) where
  unfoldable pub lookup : K → List (K × V) → Option V
  lookup k [] = none
  lookup k (e ∷ m) = ite (dec e.0 k) (some e.1) (lookup k m)

  unfoldable pub erase : K → List (K × V) → List (K × V)
  erase k [] = []
  erase k (e ∷ m) = ite (dec e.0 k) (erase k m) (e ∷ erase k m)

  unfoldable pub insert : K → V → List (K × V) → List (K × V)
  unfolding erase
  insert k v m = (k, v) ∷ erase k m

  abbrev pub Unique : List (K × V) → Type 0
  Unique [] = Unit {0}
  Unique (e ∷ m) = (lookup e.0 m ≡ none) × Unique m

  pub lookup-erase :
      (j k : K) (m : List (K × V)) → lookup j (erase k m) ≡ ite (dec k j) none (lookup j m)
  unfolding lookup erase
  lookup-erase j k [] = ground arith
  lookup-erase j k (e ∷ m) = ground (arith, lookup-erase j k m)

  pub lookup-insert :
      (j k : K) (v : V) (m : List (K × V))
      → lookup j (insert k v m) ≡ ite (dec k j) (some v) (lookup j m)
  unfolding lookup insert
  lookup-insert j k v m = ground (arith, lookup-erase j k m)

  pub erase-Unique : (k : K) (m : List (K × V)) → Unique m → Unique (erase k m)
  unfolding erase
  erase-Unique k [] u = tt
  erase-Unique k (e ∷ m) u = ground (arith, erase-Unique k m, lookup-erase e.0 k m)

  pub insert-Unique : (k : K) (v : V) (m : List (K × V)) → Unique m → Unique (insert k v m)
  unfolding insert
  insert-Unique k v m u = ground (arith, erase-Unique k m, lookup-erase k k m)

  retain-none :
      (keep : K → V → Bool) (k : K) (m : List (K × V))
      → lookup k m ≡ none
      → lookup k (retain keep m) ≡ none
  unfolding lookup retain
  retain-none keep k [] h = refl
  retain-none keep k (e ∷ m) h = ground (arith, retain-none keep k m)

  pub retain-Unique : (keep : K → V → Bool) (m : List (K × V)) → Unique m → Unique (retain keep m)
  unfolding retain
  retain-Unique keep [] u = tt
  retain-Unique keep (e ∷ m) u = ground (arith, retain-Unique keep m, retain-none keep e.0 m)

  -- The loop deletes exactly the entries that fail the test.
  pub lookup-retain :
      (keep : K → V → Bool) (k : K) (m : List (K × V))
      → Unique m
      → lookup k (retain keep m) ≡ kept keep k (lookup k m)
  unfolding lookup retain
  lookup-retain keep k [] u = refl
  lookup-retain keep k (e ∷ m) u = ground (arith, lookup-retain keep k m, retain-none keep e.0 m)

  abbrev pub IsHeld : List (K × V) → K × V → Type 0
  IsHeld m e = lookup e.0 m ≡ some e.1

  IsHeld-cons :
      (e : K × V) (m es : List (K × V))
      → lookup e.0 m ≡ none
      → All (IsHeld m) es
      → All (IsHeld (e ∷ m)) es
  unfolding lookup
  IsHeld-cons e m [] u h = tt
  IsHeld-cons e m (f ∷ es) u h = (ground arith, IsHeld-cons e m es u h.1)

  -- A loop over the map meets each entry under its key.
  pub Unique-IsHeld : (m : List (K × V)) → Unique m → All (IsHeld m) m
  unfolding lookup
  Unique-IsHeld [] u = tt
  Unique-IsHeld (e ∷ m) u = (ground arith, IsHeld-cons e m m u.0 (Unique-IsHeld m u.1))

  -- Deleting a missing key changes nothing.
  pub erase_absent : (k : K) (m : List (K × V)) → lookup k m ≡ none → erase k m ≡ m
  unfolding lookup erase
  erase_absent k [] h = refl
  erase_absent k (e ∷ m) h = ground (arith, erase_absent k m)
