-- ===== src/Prelude/Sorted.antt =====
-- The keys of a `std::map` ascend, whatever is written to it.

use mathlib.Core.Path.{◌≡◌, refl}
use mathlib.Core.Bool.{Bool, true, false, ◌&&◌}
use mathlib.Core.Option.{none}
use mathlib.Core.List.{[], ◌∷◌}
use native.Mathlib.Omega.{arith}
use cpp_tchat.Prelude.Lists.{Bytes, bytes_eq, bytes_eq_iff}
use cpp_tchat.Prelude.Map.{name_key, Map, find, assign, erase, update, for_each, bytes_before}

-- The key comes before every key of the map.
abbrev pub above : {V : Type 0} → Bytes → Map Bytes V → Bool
above k [] = true
above k ((j, v) ∷ m) = bytes_before k j && above k m

abbrev pub ascending : {V : Type 0} → Map Bytes V → Bool
ascending [] = true
ascending ((k, v) ∷ m) = above k m && ascending m

bytes_before_trans :
    (a b c : Bytes) → bytes_before a b ≡ true → bytes_before b c ≡ true → bytes_before a c ≡ true
unfolding bytes_before
bytes_before_trans a b [] h k = k
bytes_before_trans a [] (z ∷ c) h k = ground arith
bytes_before_trans [] (y ∷ b) (z ∷ c) h k = refl
bytes_before_trans (x ∷ a) (y ∷ b) (z ∷ c) h k = ground (arith, bytes_before_trans a b c)

bytes_before_total :
    (a b : Bytes) → bytes_eq a b ≡ false → bytes_before a b ≡ false → bytes_before b a ≡ true
unfolding bytes_before bytes_eq
bytes_before_total [] [] h k = ground arith
bytes_before_total [] (y ∷ b) h k = ground arith
bytes_before_total (x ∷ a) [] h k = refl
bytes_before_total (x ∷ a) (y ∷ b) h k = ground (arith, bytes_before_total a b)

bytes_before_irrefl : (a : Bytes) → bytes_before a a ≡ false
unfolding bytes_before
bytes_before_irrefl [] = refl
bytes_before_irrefl (x ∷ a) = ground (arith, bytes_before_irrefl a)

-- What comes before a key that comes before the rest comes before the rest.
above_trans :
    {V : Type 0} (k j : Bytes) (m : Map Bytes V)
    → bytes_before k j ≡ true
    → above j m ≡ true
    → above k m ≡ true
above_trans k j [] h a = refl
above_trans k j ((i, v) ∷ m) h a = ground (arith, bytes_before_trans k j i, above_trans k j m)

-- A key that comes before all of them is none of them.
pub find-above : {V : Type 0} (k : Bytes) (m : Map Bytes V) → above k m ≡ true → find k m ≡ none
unfolding find
find-above k [] a = refl
find-above k ((j, v) ∷ m) a =
    ground (arith, bytes_before_irrefl k, bytes_eq_iff j k, find-above k m)

above-assign :
    {V : Type 0} (k j : Bytes) (v : V) (m : Map Bytes V)
    → bytes_before k j ≡ true
    → above k m ≡ true
    → above k (assign j v m) ≡ true
unfolding assign
above-assign k j v [] h a = ground arith
above-assign k j v ((i, w) ∷ m) h a = ground (arith, above-assign k j v m)

pub ascending-assign :
    {V : Type 0} (k : Bytes) (v : V) (m : Map Bytes V)
    → ascending m ≡ true
    → ascending (assign k v m) ≡ true
unfolding assign
ascending-assign k v [] h = refl
ascending-assign k v ((j, w) ∷ m) h = ground (
  arith,
  bytes_eq_iff j k,
  bytes_eq_iff k j,
  bytes_before_total k j,
  above_trans k j m,
  above-assign j k v m,
  ascending-assign k v m,
)

above-erase :
    {V : Type 0} (k j : Bytes) (m : Map Bytes V) → above k m ≡ true → above k (erase j m) ≡ true
unfolding erase
above-erase k j [] a = refl
above-erase k j ((i, w) ∷ m) a = ground (arith, above-erase k j m)

pub ascending-erase :
    {V : Type 0} (k : Bytes) (m : Map Bytes V) → ascending m ≡ true → ascending (erase k m) ≡ true
unfolding erase
ascending-erase k [] h = refl
ascending-erase k ((j, w) ∷ m) h = ground (arith, above-erase j k m, ascending-erase k m)

above-update :
    {V : Type 0} (k j : Bytes) (f : V → V) (m : Map Bytes V) → above k (update j f m) ≡ above k m
unfolding update
above-update k j f [] = refl
above-update k j f ((i, w) ∷ m) = ground (arith, above-update k j f m)

pub ascending-update :
    {V : Type 0} (k : Bytes) (f : V → V) (m : Map Bytes V) → ascending (update k f m) ≡ ascending m
unfolding update
ascending-update k f [] = refl
ascending-update k f ((j, w) ∷ m) = ground (arith, above-update j k f m, ascending-update k f m)

above-for_each :
    {V : Type 0} (k : Bytes) (f : Bytes → V → V) (m : Map Bytes V)
    → above k (for_each f m) ≡ above k m
unfolding for_each
above-for_each k f [] = refl
above-for_each k f ((i, w) ∷ m) = ground (arith, above-for_each k f m)

pub ascending-for_each :
    {V : Type 0} (f : Bytes → V → V) (m : Map Bytes V) → ascending (for_each f m) ≡ ascending m
unfolding for_each
ascending-for_each f [] = refl
ascending-for_each f ((j, w) ∷ m) = ground (arith, above-for_each j f m, ascending-for_each f m)
