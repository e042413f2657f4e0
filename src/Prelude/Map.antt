-- ===== src/Prelude/Map.antt =====
-- `std::map`: entries in the order of their keys. `find` and `erase` go by the key alone.
use Prim.Native.Nat.{ℕ}
use mathlib.Core.Path.{◌≡◌, refl}
use mathlib.Core.Logic.{◌↔◌}
use mathlib.Core.Bool.{Bool, true, false}
use mathlib.Core.Option
use mathlib.Core.Option.{Option, none, some}
use mathlib.Core.List.{List, [], ◌∷◌}
use native.Mathlib.Omega.{arith}
use cpp_tchat.Prelude.Tests.{ltb, ◌==◌, ==_iff, if◌then◌else◌}
use cpp_tchat.Prelude.Lists.{Bytes, bytes_eq, bytes_eq_iff}

pub record Key (K : Type 0) : Type 0 where
  pub same : K → K → Bool
  pub same_iff : (a b : K) → (same a b ≡ true) ↔ (a ≡ b)
  pub before : K → K → Bool

instance abbrev pub fd_key : Key ℕ
fd_key = record { same = ◌==◌; same_iff = ==_iff; before = ltb }

-- `operator<` of `std::string`.
unfoldable pub bytes_before : Bytes → Bytes → Bool
bytes_before xs [] = false
bytes_before [] (y ∷ ys) = true
bytes_before (x ∷ xs) (y ∷ ys) =
    let rest = bytes_before xs ys in if ltb x y then true else if ltb y x then false else rest

instance abbrev pub name_key : Key Bytes
name_key = record { same = bytes_eq; same_iff = bytes_eq_iff; before = bytes_before }

abbrev pub Map : Type 0 → Type 0 → Type 0
Map K V = List (K × V)

module _ {K V : Type 0} ⦃key : Key K⦄ where
  unfoldable pub find : K → Map K V → Option V
  find k [] = none
  find k ((j, v) ∷ m) = if key.same j k then some v else find k m

  -- `m[k] = v`.
  unfoldable pub assign : K → V → Map K V → Map K V
  assign k v [] = (k, v) ∷ []
  assign k v ((j, w) ∷ m) =
      let rest = assign k v m in
      if key.same j k
      then (k, v) ∷ m
      else if key.before k j
      then (k, v) ∷ (j, w) ∷ m
      else (j, w) ∷ rest

  unfoldable pub erase : K → Map K V → Map K V
  erase k [] = []
  erase k ((j, w) ∷ m) = let rest = erase k m in if key.same j k then rest else (j, w) ∷ rest

  -- A write through a pointer to the value under `k`.
  unfoldable pub update : K → (V → V) → Map K V → Map K V
  update k f [] = []
  update k f ((j, w) ∷ m) =
      let rest = update k f m in if key.same j k then (j, f w) ∷ m else (j, w) ∷ rest

  -- A loop that may write to each value.
  unfoldable pub for_each : (K → V → V) → Map K V → Map K V
  for_each f [] = []
  for_each f ((j, w) ∷ m) = (j, f j w) ∷ for_each f m

  pub find-assign :
      (i k : K) (v : V) (m : Map K V)
      → find i (assign k v m) ≡ (if key.same k i then some v else find i m)
  unfolding find assign
  find-assign i k v [] = refl
  find-assign i k v ((j, w) ∷ m) =
      ground (arith, key.same_iff j k, key.same_iff j i, key.same_iff k i, find-assign i k v m)

  pub find-erase :
      (i k : K) (m : Map K V) → find i (erase k m) ≡ (if key.same k i then none else find i m)
  unfolding find erase
  find-erase i k [] = ground arith
  find-erase i k ((j, w) ∷ m) =
      ground (arith, key.same_iff j k, key.same_iff j i, key.same_iff k i, find-erase i k m)

  pub find-update :
      (i k : K) (f : V → V) (m : Map K V)
      → find i (update k f m) ≡ (if key.same k i then Option.map f (find i m) else find i m)
  unfolding find update
  find-update i k f [] = ground arith
  find-update i k f ((j, w) ∷ m) =
      ground (arith, key.same_iff j k, key.same_iff j i, key.same_iff k i, find-update i k f m)

  pub find-update_same :
      (k : K) (f : V → V) (m : Map K V) {v : V}
      → find k m ≡ some v
      → find k (update k f m) ≡ some (f v)
  find-update_same k f m h = rw (find-update k k f m, (key.same_iff k k).1 refl, h) refl

  pub find-for_each :
      (i : K) (f : K → V → V) (m : Map K V) → find i (for_each f m) ≡ Option.map (f i) (find i m)
  unfolding find for_each
  find-for_each i f [] = refl
  find-for_each i f ((j, w) ∷ m) = ground (arith, key.same_iff j i, find-for_each i f m)

pub ruleset map_laws = (find-assign, find-erase, find-update, find-for_each)
