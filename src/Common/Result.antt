-- ===== src/Common/Result.antt =====
-- Kernel code as functions on an explicit state. `panic m` is a call of panic(m); `fault` is undefined
-- behaviour of C: a null pointer that is followed, an index outside an array.
use Prim.Native.String.{String}
use mathlib.Core.Bool.{Bool, true, false}
use mathlib.Core.Path.{◌≡◌, refl}

pub data Result {ℓ} (A : Type ℓ) : Type ℓ where
  ok : A → Result A
  panic : String → Result A
  fault : Result A

abbrev pub M : Type 0 → Type 0 → Type 0
M S A = S → Result (A × S)

abbrev pub pure : {S A : Type 0} → A → M S A
pure a s = ok (a, s)

infixl 5 ◌>>=◌ ◌>>◌
abbrev pub ◌>>=◌ : {S A B : Type 0} → M S A → (A → M S B) → M S B
◌>>=◌ m f s = elim (m s) [ ok (a, t) ↦ f a t | panic e ↦ panic e | fault ↦ fault ]

abbrev pub ◌>>◌ : {S B : Type 0} → M S (Unit {0}) → M S B → M S B
m >> k = m >>= λ _. k

abbrev pub get : {S : Type 0} → M S S
get s = ok (s, s)

abbrev pub modify : {S : Type 0} → (S → S) → M S (Unit {0})
modify f s = ok (tt, f s)

abbrev pub stop : {S A : Type 0} → String → M S A
stop e s = panic e

abbrev pub crash : {S A : Type 0} → M S A
crash s = fault

abbrev pub skip : {S : Type 0} → M S (Unit {0})
skip s = ok (tt, s)

-- `if(b) m`.
abbrev pub when : {S : Type 0} → Bool → M S (Unit {0}) → M S (Unit {0})
when true m = m
when false m = skip

-- `if(b) panic(e)`.
abbrev pub panic_if : {S : Type 0} → Bool → String → M S (Unit {0})
panic_if true e = stop e
panic_if false e = skip

-- Both results of a choice between two computations.
abbrev pub branch : {S A : Type 0} → Bool → M S A → M S A → M S A
branch true m n = m
branch false m n = n

bind_cases :
    {S A B : Type 0} (m : M S A) (f : A → M S B) (s r : S) (b : B) (x : Result (A × S))
    → m s ≡ x
    → (m >>= f) s ≡ ok (b, r)
    → (a : A) × (t : S) × (m s ≡ ok (a, t)) × (f a t ≡ ok (b, r))
bind_cases m f s r b (ok (a, t)) g e = (a, t, g, cc (e, g))
bind_cases m f s r b (panic w) g e = absurd (cc (e, g))
bind_cases m f s r b fault g e = absurd (cc (e, g))

-- A computation in two parts that returns has a first part that returns.
pub bind_ok :
    {S A B : Type 0} (m : M S A) (f : A → M S B) (s r : S) (b : B)
    → (m >>= f) s ≡ ok (b, r)
    → (a : A) × (t : S) × (m s ≡ ok (a, t)) × (f a t ≡ ok (b, r))
bind_ok m f s r b e = bind_cases m f s r b (m s) refl e

-- A computation has one result.
pub same_state :
    {S A : Type 0} (m : M S A) (a b : A) (x s r : S) → m x ≡ ok (a, s) → m x ≡ ok (b, r) → s ≡ r
same_state m a b x s r e f = cc (e, f)

-- A computation on a part of the state.
abbrev pub zoom : {S T A : Type 0} → (S → T) → (S → T → S) → M T A → M S A
zoom part put m s = elim (m (part s)) [
  | ok (a, t) ↦ ok (a, put s t)
  | panic e ↦ panic e
  | fault ↦ fault
]

zoom_cases :
    {S T A : Type 0} (part : S → T) (put : S → T → S) (m : M T A) (s r : S) (a : A)
    (x : Result (A × T))
    → m (part s) ≡ x
    → zoom part put m s ≡ ok (a, r)
    → (t : T) × (m (part s) ≡ ok (a, t)) × (put s t ≡ r)
zoom_cases part put m s r a (ok (b, t)) g e = (t, cc (e, g), cc (e, g))
zoom_cases part put m s r a (panic w) g e = absurd (cc (e, g))
zoom_cases part put m s r a fault g e = absurd (cc (e, g))

pub zoom_ok :
    {S T A : Type 0} (part : S → T) (put : S → T → S) (m : M T A) (s r : S) (a : A)
    → zoom part put m s ≡ ok (a, r)
    → (t : T) × (m (part s) ≡ ok (a, t)) × (put s t ≡ r)
zoom_ok part put m s r a e = zoom_cases part put m s r a (m (part s)) refl e
