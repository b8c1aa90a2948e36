-- ===== src/Base/Dict.antt =====
-- Python's `dict`: an association list in insertion order, over any keys with `==`.
use Prim.Native.Nat.{◌+◌}
use mathlib.Core.Path.{◌≡◌, refl}
use mathlib.Core.Bool.{Bool, true, false}
use mathlib.Core.List.{List, [], ◌∷◌}
use mathlib.Core.Option.{Option, none, some}
use cyber_tracker_ai.Base.Tests.{Bool-cases}
use mathlib.Core.Logic.{inl, inr}
use native.Mathlib.Omega.{arith}
use cyber_tracker_ai.Base.Tests.{Comparable, ◌==◌, if◌then◌else◌}
use cyber_tracker_ai.Base.Lists.{length}

abbrev pub Dict {ℓ κ} : Type ℓ → Type κ → Type (ℓ ⊔ κ)
Dict K V = List (K × V)

abbrev pub is_some {ℓ} : {A : Type ℓ} → Option A → Bool
is_some none = false
is_some (some a) = true

module _ {ℓ κ} {K : Type ℓ} ⦃e : Comparable K⦄ {V : Type κ} where
  -- `d.get(k)`.
  unfoldable pub get : Dict K V → K → Option V
  get [] k = none
  get ((j, v) ∷ d) k = let rest = get d k in if j == k then some v else rest

  -- `d[k] = v`: an entry keeps its place, and a new key goes to the end.
  unfoldable pub put : Dict K V → K → V → Dict K V
  put [] k v = (k, v) ∷ []
  put ((j, w) ∷ d) k v = let rest = put d k v in if j == k then (j, v) ∷ d else (j, w) ∷ rest

  -- `d.pop(k, None)`.
  unfoldable pub remove : Dict K V → K → Dict K V
  remove [] k = []
  remove ((j, w) ∷ d) k = let rest = remove d k in if j == k then rest else (j, w) ∷ rest

module _ {ℓ κ} {K : Type ℓ} ⦃e : Comparable K⦄ {V : Type κ} where
  pub get-put :
      (d : Dict K V) (k j : K) (v : V) → get (put d k v) j ≡ (if k == j then some v else get d j)
  unfolding get put
  get-put [] k j v = refl
  get-put ((i, w) ∷ d) k j v =
      ground (arith, e.equals_iff i k, e.equals_iff i j, e.equals_iff k j, get-put d k j v)

  pub get-remove :
      (d : Dict K V) (k j : K) → get (remove d k) j ≡ (if k == j then none else get d j)
  unfolding get remove
  get-remove [] k j = ground arith
  get-remove ((i, w) ∷ d) k j =
      ground (arith, e.equals_iff i k, e.equals_iff i j, e.equals_iff k j, get-remove d k j)

  pub length-put :
      (d : Dict K V) (k : K) (v : V)
      → length (put d k v) ≡ length d + elim (get d k) [ none ↦ 1 | some _ ↦ 0 ]
  unfolding get put
  length-put [] k v = omega arith
  length-put ((i, w) ∷ d) k v = ground (arith, length-put d k v)

  -- No key stands twice, as in every `dict`.
  abbrev pub Distinct : Dict K V → Type 0
  Distinct [] = Unit
  Distinct ((k, v) ∷ d) = (is_some (get d k) ≡ false) × Distinct d

  pub put-Distinct : (d : Dict K V) (k : K) (v : V) → Distinct d → Distinct (put d k v)
  unfolding put get
  put-Distinct [] k v h = (refl, tt)
  put-Distinct ((j, w) ∷ d) k v h = elim (Bool-cases (j == k)) [
    | inl same ↦ rw same h
    | inr other ↦ rw other (
      ground (arith, get-put d k j v, h.0, e.equals_iff j k, e.equals_iff k j),
      put-Distinct d k v h.1,
    )
  ]

  pub remove-Distinct : (d : Dict K V) (k : K) → Distinct d → Distinct (remove d k)
  unfolding remove
  remove-Distinct [] k h = tt
  remove-Distinct ((j, w) ∷ d) k h = elim (Bool-cases (j == k)) [
    | inl same ↦ rw same (remove-Distinct d k h.1)
    | inr other ↦ rw other (
      ground (arith, get-remove d k j, h.0, e.equals_iff j k, e.equals_iff k j),
      remove-Distinct d k h.1,
    )
  ]

  pub length-remove :
      (d : Dict K V) (k : K)
      → Distinct d
      → length (remove d k) + elim (get d k) [ none ↦ 0 | some _ ↦ 1 ] ≡ length d
  unfolding remove get
  length-remove [] k h = omega arith
  length-remove ((j, w) ∷ d) k h = ground (arith, length-remove d k h.1, e.equals_iff j k)

pub ruleset dict_laws = (get-put, get-remove)
