-- ===== src/Base/Options.antt =====
-- `Option` as the result of code that may panic: `do` blocks, and what a success tells.
use mathlib.Core.Path.{◌≡◌, refl, subst}
use rtmalloc.Base.Tests.{if◌then◌else◌}
use mathlib.Core.Bool.{Bool, true, false}
use mathlib.Core.Option.{Option, none, some}

infixl 5 ◌>>=◌ ◌>>◌
abbrev pub ◌>>=◌ {ℓ κ} : {A : Type ℓ} {B : Type κ} → Option A → (A → Option B) → Option B
none >>= f = none
some a >>= f = f a

abbrev pub ◌>>◌ {ℓ} : {B : Type ℓ} → Option (Unit {0}) → Option B → Option B
m >> k = m >>= λ _. k

-- `assert!`.
abbrev pub assert : Bool → Option (Unit {0})
assert true = some tt
assert false = none

pub >>=-eq-some {ℓ κ} :
    {A : Type ℓ} {B : Type κ} (m : Option A) (f : A → Option B) {b : B}
    → (m >>= f) ≡ some b
    → (a : A) × (m ≡ some a) × (f a ≡ some b)
>>=-eq-some none f h = cc
>>=-eq-some (some a) f h = (a, refl, h)

pub assert-eq-some {ℓ} :
    {B : Type ℓ} (c : Bool) (k : Option B) {b : B}
    → (assert c >> k) ≡ some b
    → (c ≡ true) × (k ≡ some b)
assert-eq-some true k h = (refl, h)
assert-eq-some false k h = cc

pub some_inj {ℓ} : {A : Type ℓ} {a b : A} → some a ≡ some b → a ≡ b
some_inj h = cc

-- What holds of a result, if there is one.
abbrev pub Ensures {ℓ κ} : {A : Type ℓ} → (A → Type κ) → Option A → Type κ
Ensures P none = Unit
Ensures P (some a) = P a

pub Ensures->>= {ℓ κ μ} :
    {A : Type ℓ} {B : Type κ} {Q : A → Type μ} (P : B → Type μ) (m : Option A) (f : A → Option B)
    → Ensures Q m
    → ((a : A) → Q a → Ensures P (f a))
    → Ensures P (m >>= f)
Ensures->>= P none f h k = tt
Ensures->>= P (some a) f h k = k a h

pub Ensures-any {ℓ} : {A : Type ℓ} (m : Option A) → Ensures (λ (a : A). Unit {0}) m
Ensures-any none = tt
Ensures-any (some a) = tt

pub Ensures-if {ℓ κ} :
    {A : Type ℓ} (P : A → Type κ) (c : Bool) (x y : Option A)
    → Ensures P x
    → Ensures P y
    → Ensures P (if c then x else y)
Ensures-if P true x y h k = h
Ensures-if P false x y h k = k

pub Ensures-some {ℓ κ} :
    {A : Type ℓ} (P : A → Type κ) (m : Option A) {a : A} → Ensures P m → m ≡ some a → P a
Ensures-some P m h e = subst (Ensures P) e h

pub Ensures-both {ℓ κ μ} :
    {A : Type ℓ} (P : A → Type κ) (Q : A → Type μ) (m : Option A)
    → Ensures P m
    → Ensures Q m
    → Ensures (λ (a : A). P a × Q a) m
Ensures-both P Q none h k = tt
Ensures-both P Q (some a) h k = (h, k)

pub Ensures-weaken {ℓ κ μ} :
    {A : Type ℓ} {P : A → Type κ} (Q : A → Type μ) (m : Option A)
    → Ensures P m
    → ((a : A) → P a → Ensures Q (some a))
    → Ensures Q m
Ensures-weaken Q none h k = tt
Ensures-weaken Q (some a) h k = k a h

pub Ensures-cases {ℓ κ} :
    {A : Type ℓ} (P : A → Type κ) (c : Bool) (x y : Option A)
    → (c ≡ true → Ensures P x)
    → (c ≡ false → Ensures P y)
    → Ensures P (if c then x else y)
Ensures-cases P true x y h k = h refl
Ensures-cases P false x y h k = k refl
