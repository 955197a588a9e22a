-- ===== src/Base/Maps.antt =====
-- Association lists, in the order of some iteration, for the maps of the code.
use Prim.Native.Nat.{ℕ}
use mathlib.Core.Path.{◌≡◌, refl, ap, ◌∙◌}
use mathlib.Core.Bool.{Bool, true, false}
use mathlib.Core.Logic.{inl, inr}
use mathlib.Core.Option.{Option, none, some}
use mathlib.Core.List.{List, [], ◌∷◌}
use aether_stack.Base.Tests.{if◌then◌else◌, Bool-cases, ◌==◌, ==_iff}

module _ {ℓ κ} {K : Type ℓ} {V : Type κ} (same : K → K → Bool) where
  abbrev pub lookup : List (K × V) → K → Option V
  lookup [] k = none
  lookup (e ∷ es) k = let rest = lookup es k in if same e.0 k then some e.1 else rest

  -- A new key goes to the end.
  abbrev pub put : List (K × V) → K → V → List (K × V)
  put [] k v = (k, v) ∷ []
  put (e ∷ es) k v = let rest = put es k v in if same e.0 k then (k, v) ∷ es else e ∷ rest

  abbrev pub remove : List (K × V) → K → List (K × V)
  remove [] k = []
  remove (e ∷ es) k = let rest = remove es k in if same e.0 k then es else e ∷ rest

  pub lookup-put_self :
      (m : List (K × V)) (k : K) (v : V) → same k k ≡ true → lookup (put m k v) k ≡ some v
  lookup-put_self [] k v h = rw h refl
  lookup-put_self (e ∷ es) k v h = elim (Bool-cases (same e.0 k)) [
    | inl s ↦ rw (s, h) refl
    | inr s ↦ rw (s, s) (lookup-put_self es k v h)
  ]

-- At numbers, another key keeps its entry.
pub lookup-put_other {ℓ} :
    {V : Type ℓ} (m : List (ℕ × V)) (k j : ℕ) (v : V)
    → (k == j) ≡ false
    → lookup ◌==◌ (put ◌==◌ m k v) j ≡ lookup ◌==◌ m j
lookup-put_other [] k j v h = rw h refl
lookup-put_other (e ∷ es) k j v h = elim (Bool-cases (e.0 == k)) [
  | inl s ↦
      let other : (e.0 == j) ≡ false = ap (λ n. n == j) ((==_iff e.0 k).0 s) ∙ h in
      rw (s, h, other) refl
  | inr s ↦ elim (Bool-cases (e.0 == j)) [
    | inl t ↦ rw (s, t) refl
    | inr t ↦ rw (s, t) (lookup-put_other es k j v h)
  ]
]
