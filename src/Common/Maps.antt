-- ===== src/Common/Maps.antt =====
-- Maps from numbers as functions, sums over them, and the pigeonhole principle.
use Prim.Native.Nat.{ℕ, zero, suc, ◌+◌, ◌*◌, ◌≤◌, ◌<◌}
use mathlib.Core.Path.{◌≡◌, refl, sym, subst}
use mathlib.Core.Logic.{◌≢◌, inl, inr}
use mathlib.Core.List.{List, [], ◌∷◌}
use native.Mathlib.Omega.{arith}
use operating_system.Common.Tests.{◌==◌, if◌then◌else◌, Bool-cases}
use operating_system.Common.Lists.{length}

abbrev pub update {ℓ} : {A : Type ℓ} → (ℕ → A) → ℕ → A → ℕ → A
update f i a j = if i == j then a else f j

-- The sum of the first `n` values.
abbrev pub sum_below : ℕ → (ℕ → ℕ) → ℕ
sum_below zero f = 0
sum_below (suc n) f = f n + sum_below n f

pub sum_below-ext :
    (n : ℕ) (f g : ℕ → ℕ) → ((i : ℕ) → i < n → f i ≡ g i) → sum_below n f ≡ sum_below n g
sum_below-ext zero f g h = refl
sum_below-ext (suc n) f g h =
    omega (arith, h n (omega arith), sum_below-ext n f g (λ i l. h i (omega arith)))

-- One value changes.
pub sum_below-update :
    (n i : ℕ) (f g : ℕ → ℕ)
    → i < n
    → ((j : ℕ) → j ≢ i → g j ≡ f j)
    → sum_below n g + f i ≡ sum_below n f + g i
sum_below-update zero i f g l h = elim l [ ]
sum_below-update (suc n) i f g l h = elim (Bool-cases (i == n)) [
  | inl e ↦
      let same : i ≡ n = ground arith in
      let rest : sum_below n g ≡ sum_below n f =
        sum_below-ext n g f (λ j b. h j (λ t. omega arith)) in
      rw same (omega (arith, rest))
  | inr d ↦
      let other : i ≢ n = ground arith in
      omega (arith, sum_below-update n i f g (omega arith) h, h n (λ t. other (sym t)))
]

pub sum_below-const : (n c : ℕ) (f : ℕ → ℕ) → ((i : ℕ) → i < n → f i ≡ c) → sum_below n f ≡ n * c
sum_below-const zero c f h = omega arith
sum_below-const (suc n) c f h =
    grind (arith, h n (omega arith), sum_below-const n c f (λ i l. h i (omega arith)))

abbrev pub Absent : ℕ → List ℕ → Type 0
Absent a [] = Unit {0}
Absent a (x ∷ xs) = (a ≢ x) × Absent a xs

abbrev pub Distinct : List ℕ → Type 0
Distinct [] = Unit {0}
Distinct (x ∷ xs) = Absent x xs × Distinct xs

abbrev pub Below : ℕ → List ℕ → Type 0
Below n [] = Unit {0}
Below n (x ∷ xs) = (x < n) × Below n xs

abbrev remove : ℕ → List ℕ → List ℕ
remove a [] = []
remove a (x ∷ xs) = let rest = remove a xs in if a == x then rest else x ∷ rest

remove-Absent : (a b : ℕ) (xs : List ℕ) → Absent b xs → Absent b (remove a xs)
remove-Absent a b [] h = tt
remove-Absent a b (x ∷ xs) (n, h) = elim (Bool-cases (a == x)) [
  | inl e ↦ rw e (remove-Absent a b xs h)
  | inr e ↦ rw e (n, remove-Absent a b xs h)
]

remove-Distinct : (a : ℕ) (xs : List ℕ) → Distinct xs → Distinct (remove a xs)
remove-Distinct a [] h = tt
remove-Distinct a (x ∷ xs) (n, h) = elim (Bool-cases (a == x)) [
  | inl e ↦ rw e (remove-Distinct a xs h)
  | inr e ↦ rw e (remove-Absent a x xs n, remove-Distinct a xs h)
]

remove-Below : (n : ℕ) (xs : List ℕ) → Below (suc n) xs → Below n (remove n xs)
remove-Below n [] h = tt
remove-Below n (x ∷ xs) (l, h) = elim (Bool-cases (n == x)) [
  | inl e ↦ rw e (remove-Below n xs h)
  | inr e ↦ rw e (ground arith, remove-Below n xs h)
]

length-remove-Absent : (a : ℕ) (xs : List ℕ) → Absent a xs → length (remove a xs) ≡ length xs
length-remove-Absent a [] h = refl
length-remove-Absent a (x ∷ xs) (n, h) = ground (arith, length-remove-Absent a xs h)

length-remove : (a : ℕ) (xs : List ℕ) → Distinct xs → length xs ≤ length (remove a xs) + 1
length-remove a [] h = omega arith
length-remove a (x ∷ xs) (n, h) = elim (Bool-cases (a == x)) [
  | inl e ↦
      let same : a ≡ x = ground arith in
      ground (arith, length-remove-Absent a xs (subst (λ t. Absent t xs) (sym same) n))
  | inr e ↦ ground (arith, length-remove a xs h)
]

-- The pigeonhole principle.
pub length-le_of_Below : (n : ℕ) (xs : List ℕ) → Distinct xs → Below n xs → length xs ≤ n
length-le_of_Below zero [] d b = omega arith
length-le_of_Below zero (x ∷ xs) d b = absurd (omega arith)
length-le_of_Below (suc n) xs d b = omega (
  arith,
  length-remove n xs d,
  length-le_of_Below n (remove n xs) (remove-Distinct n xs d) (remove-Below n xs b),
)
