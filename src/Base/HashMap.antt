-- ===== src/Base/HashMap.antt =====
-- `HashMap<String, V>` as an association list. A map read through `get` does not depend on the
-- order of the entries; where code iterates, the list's order stands for the unspecified one.
use Prim.Native.String.{String}
use mathlib.Core.Path.{◌≡◌, refl}
use mathlib.Core.Bool.{Bool, true, false}
use mathlib.Core.Option.{Option, none, some}
use mathlib.Core.List.{List, [], ◌∷◌}
use native.Mathlib.Omega.{arith}
use text.Mathlib.TextEquality.{eq_iff}
use text.Mathlib.TextPositions.{eq_refl}
use package.pagi_digital_twin.Base.Tests.{◌==◌, if◌then◌else◌, is_some}
use package.pagi_digital_twin.Base.Lists.{any, length}
use Prim.Native.Nat.{suc, ◌≤◌, ◌<◌}

abbrev pub HashMap {ℓ} : Type ℓ → Type ℓ
HashMap V = List (String × V)

module _ {ℓ} {V : Type ℓ} where
  unfoldable pub get : String → HashMap V → Option V
  get k [] = none
  get k ((j, v) ∷ m) = if j == k then some v else get k m

  unfoldable pub insert : String → V → HashMap V → HashMap V
  insert k v [] = (k, v) ∷ []
  insert k v ((j, w) ∷ m) = if j == k then (j, v) ∷ m else (j, w) ∷ insert k v m

  unfoldable pub remove : String → HashMap V → HashMap V
  remove k [] = []
  remove k ((j, w) ∷ m) = if j == k then remove k m else (j, w) ∷ remove k m

  -- `retain`: the test sees the value.
  unfoldable pub retain : (V → Bool) → HashMap V → HashMap V
  retain p [] = []
  retain p ((j, w) ∷ m) = if p w then (j, w) ∷ retain p m else retain p m

  abbrev pub contains_key : String → HashMap V → Bool
  contains_key k m = is_some (get k m)

  abbrev pub values : HashMap V → List V
  values [] = []
  values ((k, v) ∷ m) = v ∷ values m

  -- No key stands twice.
  abbrev pub IsMap : HashMap V → Type 0
  IsMap [] = Unit
  IsMap ((k, v) ∷ m) = (contains_key k m ≡ false) × IsMap m

module _ {ℓ} {V : Type ℓ} where
  pub get-insert :
      (k j : String) (v : V) (m : HashMap V)
      → get j (insert k v m) ≡ (if k == j then some v else get j m)
  unfolding get insert
  get-insert k j v [] = refl
  get-insert k j v ((i, w) ∷ m) =
      ground (arith, eq_iff k j, eq_iff i k, eq_iff i j, get-insert k j v m)

  pub get-remove :
      (k j : String) (m : HashMap V) → get j (remove k m) ≡ (if k == j then none else get j m)
  unfolding get remove
  get-remove k j [] = ground arith
  get-remove k j ((i, w) ∷ m) = ground (arith, eq_iff k j, eq_iff i k, eq_iff i j, get-remove k j m)

  pub get-insert_self : (k : String) (v : V) (m : HashMap V) → get k (insert k v m) ≡ some v
  get-insert_self k v m = rw get-insert (simp eq_refl)

  pub get-remove_self : (k : String) (m : HashMap V) → get k (remove k m) ≡ none
  get-remove_self k m = rw get-remove (simp eq_refl)

  pub insert-IsMap : (k : String) (v : V) (m : HashMap V) → IsMap m → IsMap (insert k v m)
  unfolding get insert
  insert-IsMap k v [] h = (refl, tt)
  insert-IsMap k v ((i, w) ∷ m) h =
      ground (arith, eq_iff i k, eq_iff k i, get-insert k i v m, insert-IsMap k v m h.1)

  pub remove-IsMap : (k : String) (m : HashMap V) → IsMap m → IsMap (remove k m)
  unfolding remove
  remove-IsMap k [] h = tt
  remove-IsMap k ((i, w) ∷ m) h = ground (arith, get-remove k i m, remove-IsMap k m h.1)

  pub get-retain-none :
      (p : V → Bool) (k : String) (m : HashMap V) → get k m ≡ none → get k (retain p m) ≡ none
  unfolding get retain
  get-retain-none p k [] h = refl
  get-retain-none p k ((i, w) ∷ m) h = ground (arith, get-retain-none p k m)

  pub retain-IsMap : (p : V → Bool) (m : HashMap V) → IsMap m → IsMap (retain p m)
  unfolding retain
  retain-IsMap p [] h = tt
  retain-IsMap p ((i, w) ∷ m) h = ground (arith, get-retain-none p i m, retain-IsMap p m h.1)

  -- `retain` keeps exactly the entries whose value passes.
  pub get-retain :
      (p : V → Bool) (k : String) (m : HashMap V) (v : V)
      → IsMap m
      → get k m ≡ some v
      → get k (retain p m) ≡ (if p v then some v else none)
  unfolding get retain
  get-retain p k [] v h e = ground arith
  get-retain p k ((i, w) ∷ m) v h e =
      ground (arith, eq_iff i k, get-retain-none p k m, get-retain p k m v h.1)

module _ {ℓ} {V : Type ℓ} where
  -- A value on file is met by a walk over the values.
  pub any-values :
      (p : V → Bool) (k : String) (v : V) (m : HashMap V)
      → get k m ≡ some v
      → p v ≡ true
      → any p (values m) ≡ true
  unfolding get
  any-values p k v [] e h = cc
  any-values p k v ((i, w) ∷ m) e h = ground (arith, any-values p k v m)

module _ {ℓ} {V : Type ℓ} where
  pub length-insert :
      (k : String) (v : V) (m : HashMap V)
      → length (insert k v m) ≡ (if contains_key k m then length m else suc (length m))
  unfolding get insert
  length-insert k v [] = refl
  length-insert k v ((i, w) ∷ m) = ground (arith, length-insert k v m)

  pub length-remove :
      (k : String) (m : HashMap V)
      → (length (remove k m) ≤ length m)
        × (contains_key k m ≡ true → length (remove k m) < length m)
  unfolding get remove
  length-remove k [] = (omega arith, λ h. cc)
  length-remove k ((i, w) ∷ m) = ground (arith, length-remove k m)

pub ruleset map_laws = (arith, get-insert, get-remove, eq_iff)
