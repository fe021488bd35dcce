-- ===== src/Base/Assoc.antt =====
-- std::unordered_map as an association list. `lookup` is find, `insert` is m[k] = v (in place, or a
-- new entry at the end), `erase` is erase. Iteration goes in the list's order: the order of a
-- hash table is unspecified, and a theorem about every list holds for every order.
use Prim.Native.Nat.{◌+◌, ◌≤◌}
use mathlib.Core.Path.{◌≡◌, refl, ap, ◌∙◌}
use mathlib.Core.Logic.{◌≢◌, inl, inr}
use mathlib.Core.Option.{Option, none, some}
use mathlib.Core.List.{List, [], ◌∷◌}
use native.Mathlib.Omega.{arith}
use smart_lighting_system.Base.Tests.{Eq, ◌==◌, ==_refl, ==_ne, Bool-cases, if◌then◌else◌}
use smart_lighting_system.Base.Lists.{length, All}

module _ {ℓ} {K : Type 0} {V : Type ℓ} ⦃e : Eq K⦄ where
  unfoldable pub erase : K → List (K × V) → List (K × V)
  erase k [] = []
  erase k ((j, w) ∷ m) = let rest = erase k m in if j == k then rest else (j, w) ∷ rest

  unfoldable pub insert : K → V → List (K × V) → List (K × V)
  insert k v [] = (k, v) ∷ []
  insert k v ((j, w) ∷ m) = if j == k then (j, v) ∷ m else (j, w) ∷ insert k v m

  unfoldable pub lookup : K → List (K × V) → Option V
  lookup k [] = none
  lookup k ((j, v) ∷ m) = if j == k then some v else lookup k m

  pub lookup-erase :
      (k j : K) (m : List (K × V)) → lookup j (erase k m) ≡ (if k == j then none else lookup j m)
  unfolding lookup erase
  lookup-erase k j [] = ground arith
  lookup-erase k j ((i, w) ∷ m) =
      ground (arith, e.beq_iff k j, e.beq_iff i k, e.beq_iff i j, lookup-erase k j m)

  pub lookup-insert :
      (k j : K) (v : V) (m : List (K × V))
      → lookup j (insert k v m) ≡ (if k == j then some v else lookup j m)
  unfolding lookup insert
  lookup-insert k j v [] = refl
  lookup-insert k j v ((i, u) ∷ rest) =
      ground (lookup-insert k j v rest, e.beq_iff i j, e.beq_iff i k, e.beq_iff k j, arith)

  pub lookup-insert_self : (k : K) (v : V) (m : List (K × V)) → lookup k (insert k v m) ≡ some v
  lookup-insert_self k v m = ground (arith, lookup-insert k k v m, ==_refl k)

  pub lookup-insert_ne :
      (k j : K) (v : V) (m : List (K × V)) → k ≢ j → lookup j (insert k v m) ≡ lookup j m
  lookup-insert_ne k j v m h = lookup-insert k j v m ∙ rw (==_ne h)

  pub insert-insert_self :
      (k : K) (v : V) (m : List (K × V)) → insert k v (insert k v m) ≡ insert k v m
  unfolding insert
  insert-insert_self k v [] = rw (==_refl k) refl
  insert-insert_self k v ((j, w) ∷ m) = elim (Bool-cases (j == k)) [
    | inl p ↦ rw p (rw p refl)
    | inr p ↦ rw p (rw p (ap (◌∷◌ (j, w)) (insert-insert_self k v m)))
  ]

  -- The keys of a map are distinct.
  abbrev pub Distinct : List (K × V) → Type ℓ
  Distinct [] = Unit
  Distinct ((k, v) ∷ m) = (lookup k m ≡ none) × Distinct m

  pub insert-Distinct : (k : K) (v : V) (m : List (K × V)) → Distinct m → Distinct (insert k v m)
  unfolding lookup insert
  insert-Distinct k v [] d = (refl, tt)
  insert-Distinct k v ((j, w) ∷ m) d = elim (Bool-cases (j == k)) [
    | inl p ↦ rw p d
    | inr p ↦ rw p (
      lookup-insert k j v m ∙ ground (arith, e.beq_iff k j, e.beq_iff j k, d.0),
      insert-Distinct k v m d.1,
    )
  ]

  pub insert-All {κ} :
      (P : V → Type κ) (k : K) (v : V) (m : List (K × V))
      → P v
      → All (λ kv. P kv.1) m
      → All (λ kv. P kv.1) (insert k v m)
  unfolding insert
  insert-All P k v [] p h = (p, tt)
  insert-All P k v ((j, w) ∷ m) p h = elim (Bool-cases (j == k)) [
    | inl q ↦ rw q (p, h.1)
    | inr q ↦ rw q (h.0, insert-All P k v m p h.1)
  ]

  -- The same for a property of keys and values.
  pub insert-All_entry {κ} :
      (P : K × V → Type κ) (k : K) (v : V) (m : List (K × V))
      → P (k, v)
      → All P m
      → All P (insert k v m)
  unfolding insert
  insert-All_entry P k v [] p h = (p, tt)
  insert-All_entry P k v ((j, w) ∷ m) p h = elim (Bool-cases (j == k)) [
    | inl q ↦ rw q (rw ((e.beq_iff j k).0 q) p, h.1)
    | inr q ↦ rw q (h.0, insert-All_entry P k v m p h.1)
  ]

  pub length-insert : (k : K) (v : V) (m : List (K × V)) → length (insert k v m) ≤ length m + 1
  unfolding insert
  length-insert k v [] = omega arith
  length-insert k v ((j, w) ∷ m) = ground (arith, length-insert k v m)

  pub lookup-All {κ} :
      (P : V → Type κ) (k : K) (m : List (K × V)) {v : V}
      → All (λ kv. P kv.1) m
      → lookup k m ≡ some v
      → P v
  unfolding lookup
  lookup-All P k [] h q = cc
  lookup-All P k ((j, w) ∷ m) {v} h q = elim (Bool-cases (j == k)) [
    | inl p ↦ same (ground arith)
    | inr p ↦ lookup-All P k m h.1 (ground arith)
  ]
    where
      same : w ≡ v → P v
      same r = rw (← r) h.0
