-- ===== src/Base/Keys.antt =====
-- JavaScript's `Set` and `Map`, in insertion order.
use Prim.Native.Nat.{ℕ, suc, ◌+◌, ◌≤◌}
use mathlib.Core.Path.{◌≡◌, refl}
use mathlib.Core.Logic.{◌↔◌}
use mathlib.Core.Bool.{Bool, true, false, ◌&&◌, ◌||◌}
use mathlib.Core.Option.{Option, none, some}
use mathlib.Core.List.{List, [], ◌∷◌, ◌++◌}
use native.Mathlib.Omega.{arith}
use sqlanvil.Base.Tests.{if◌then◌else◌}
use sqlanvil.Base.Lists.{filter_by}
use sqlanvil.Base.Equality.{HasEq, ◌==◌, ==_iff}

module _ {ℓ} {A : Type ℓ} ⦃e : HasEq A⦄ where
  pub ==_refl : (a : A) → (a == a) ≡ true
  ==_refl a = (==_iff a a).1 refl

  abbrev pub contains : List A → A → Bool
  contains [] a = false
  contains (x ∷ xs) a = a == x || contains xs a

  -- `Set.add`: a value that is there already changes nothing.
  abbrev pub add : List A → A → List A
  add xs a = if contains xs a then xs else xs ++ a ∷ []

  abbrev pub add_all : List A → List A → List A
  add_all xs [] = xs
  add_all xs (y ∷ ys) = add_all (add xs y) ys

  -- No value stands twice.
  abbrev pub IsDistinct : List A → Type 0
  IsDistinct [] = Unit
  IsDistinct (x ∷ xs) = (contains xs x ≡ false) × IsDistinct xs

  abbrev pub IsSubset : List A → List A → Type ℓ
  IsSubset xs ys = (a : A) → contains xs a ≡ true → contains ys a ≡ true

module _ {ℓ} {A : Type ℓ} ⦃e : HasEq A⦄ where
  pub contains-append :
      (xs ys : List A) (a : A) → contains (xs ++ ys) a ≡ (contains xs a || contains ys a)
  contains-append [] ys a = refl
  contains-append (x ∷ xs) ys a = ground (arith, contains-append xs ys a)

  pub contains-add : (xs : List A) (b a : A) → contains (add xs b) a ≡ (contains xs a || a == b)
  contains-add xs b a = ground (arith, contains-append xs (b ∷ []) a, ==_iff a b)

  pub contains-filter_by :
      (p : A → Bool) (xs : List A) (a : A) → contains (filter_by p xs) a ≡ (p a && contains xs a)
  contains-filter_by p [] a = ground arith
  contains-filter_by p (x ∷ xs) a = ground (arith, contains-filter_by p xs a, ==_iff a x)

  pub IsDistinct-filter_by :
      (p : A → Bool) (xs : List A) → IsDistinct xs → IsDistinct (filter_by p xs)
  IsDistinct-filter_by p [] h = tt
  IsDistinct-filter_by p (x ∷ xs) h =
      ground (arith, IsDistinct-filter_by p xs h.1, contains-filter_by p xs x)

module _ {ℓ κ} {K : Type ℓ} ⦃e : HasEq K⦄ {V : Type κ} where
  abbrev pub get : List (K × V) → K → Option V
  get [] k = none
  get ((j, v) ∷ m) k = if j == k then some v else get m k

  -- `Map.set`: a key that is there keeps its place.
  abbrev pub put : List (K × V) → K → V → List (K × V)
  put [] k v = (k, v) ∷ []
  put ((j, w) ∷ m) k v = if j == k then (j, v) ∷ m else (j, w) ∷ put m k v

  pub get-put :
      (m : List (K × V)) (k j : K) (v : V)
      → get (put m k v) j ≡ (if k == j then some v else get m j)
  get-put [] k j v = refl
  get-put ((i, w) ∷ m) k j v = ground (arith, ==_iff k j, ==_iff i k, ==_iff i j, get-put m k j v)

module _ {ℓ} {A : Type ℓ} ⦃e : HasEq A⦄ where
  abbrev pub count : A → List A → ℕ
  count a [] = 0
  count a (x ∷ xs) = if a == x then suc (count a xs) else count a xs

  pub count-append : (a : A) (xs ys : List A) → count a (xs ++ ys) ≡ count a xs + count a ys
  count-append a [] ys = omega arith
  count-append a (x ∷ xs) ys = ground (arith, count-append a xs ys)

  pub contains-count : (a : A) (xs : List A) → (contains xs a ≡ true) ↔ (1 ≤ count a xs)
  contains-count a [] = ground arith
  contains-count a (x ∷ xs) = ground (arith, contains-count a xs)

  pub count-add :
      (a b : A) (xs : List A)
      → count a (add xs b) ≡ (if contains xs b then count a xs else count a xs + count a (b ∷ []))
  count-add a b xs = ground (arith, count-append a xs (b ∷ []))
