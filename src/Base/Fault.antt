-- ===== src/Base/Fault.antt =====
-- Results of code that may run into undefined behaviour: `none` is a fault.
use mathlib.Core.Option
use mathlib.Core.Option.{Option, none, some}
use mathlib.Core.Path.{◌≡◌, refl, subst}

infixl 5 ◌>>=◌
abbrev pub ◌>>=◌ {ℓ κ} : {A : Type ℓ} {B : Type κ} → Option A → (A → Option B) → Option B
none >>= f = none
some a >>= f = f a

-- What holds of a result, if there is no fault.
abbrev pub Ensures {ℓ κ} : {A : Type ℓ} → (A → Type κ) → Option A → Type κ
Ensures P none = Unit
Ensures P (some a) = P a

pub Ensures-some {ℓ κ} :
    {A : Type ℓ} (P : A → Type κ) (o : Option A) {a : A} → Ensures P o → o ≡ some a → P a
Ensures-some P none h e = absurd (cc)
Ensures-some P (some b) h e = subst P (cc) h

pub Ensures-any {ℓ} : {A : Type ℓ} (o : Option A) → Ensures (λ a. Unit {0}) o
Ensures-any none = tt
Ensures-any (some a) = tt

pub Ensures-mono {ℓ κ κ'} :
    {A : Type ℓ} (P : A → Type κ) (Q : A → Type κ') (o : Option A)
    → Ensures P o
    → ((a : A) → P a → Q a)
    → Ensures Q o
Ensures-mono P Q none h k = tt
Ensures-mono P Q (some a) h k = k a h

-- What holds of a result goes on to what is computed from it.
pub Ensures-bind {ℓ κ ℓ' κ'} :
    {A : Type ℓ} {B : Type κ} (P : A → Type ℓ') (Q : B → Type κ') (f : A → Option B) (o : Option A)
    → Ensures P o
    → ((a : A) → P a → Ensures Q (f a))
    → Ensures Q (o >>= f)
Ensures-bind P Q f none h k = tt
Ensures-bind P Q f (some a) h k = k a h

-- What holds of a result that is computed from a value that was found.
pub Ensures-map {ℓ κ ℓ'} :
    {A : Type ℓ} {B : Type κ} (P : B → Type ℓ') (f : A → B) (o : Option A)
    → ((a : A) → o ≡ some a → P (f a))
    → Ensures P (Option.map f o)
Ensures-map P f none k = tt
Ensures-map P f (some a) k = k a refl

pub Ensures-found {ℓ κ ℓ'} :
    {A : Type ℓ} {B : Type κ} (P : B → Type ℓ') (f : A → Option B) (o : Option A)
    → ((a : A) → o ≡ some a → Ensures P (f a))
    → Ensures P (o >>= f)
Ensures-found P f none k = tt
Ensures-found P f (some a) k = k a refl
