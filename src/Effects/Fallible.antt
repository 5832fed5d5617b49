-- ===== src/Effects/Fallible.antt =====
-- Code that may raise and changes nothing: a value, or the exception that left it.
use krg_infra.Prelude.{Bool, true, false, ◌≡◌, refl, subst, if◌then◌else◌}
use krg_infra.Effects.{Result, ok, raised}

infixl 10 ◌>>=◌ ◌>>◌
abbrev pub ◌>>=◌ {ℓ} : {E A B : Type ℓ} → Result E A → (A → Result E B) → Result E B
ok a >>= f = f a
raised e >>= f = raised e

abbrev pub ◌>>◌ {ℓ} : {E A B : Type ℓ} → Result E A → Result E B → Result E B
m >> n = m >>= λ _. n

-- What holds of the value, if there is one.
abbrev pub Gives {ℓ κ} : {E A : Type ℓ} → (A → Type κ) → Result E A → Type κ
Gives P (ok a) = P a
Gives P (raised e) = Unit

pub Gives-bind {ℓ κ} :
    {E A B : Type ℓ} (P : A → Type κ) (Q : B → Type κ) (m : Result E A) (f : A → Result E B)
    → Gives P m
    → ((a : A) → P a → Gives Q (f a))
    → Gives Q (m >>= f)
Gives-bind P Q (ok a) f p q = q a p
Gives-bind P Q (raised e) f p q = tt

-- Each branch knows how the test came out.
pub Gives-if {ℓ κ} :
    {E A : Type ℓ} (P : A → Type κ) (b : Bool) (m n : Result E A)
    → (b ≡ true → Gives P m)
    → (b ≡ false → Gives P n)
    → Gives P (if b then m else n)
Gives-if P true m n p q = p refl
Gives-if P false m n p q = q refl

pub Gives-weaken {ℓ κ} :
    {E A : Type ℓ} (P Q : A → Type κ) (r : Result E A)
    → ((a : A) → P a → Q a)
    → Gives P r
    → Gives Q r
Gives-weaken P Q (ok a) f p = f a p
Gives-weaken P Q (raised e) f p = tt

pub Gives-any {ℓ} : {E A : Type ℓ} (r : Result E A) → Gives (λ _. Unit {0}) r
Gives-any (ok a) = tt
Gives-any (raised e) = tt

pub Gives-then {ℓ κ} :
    {E A B : Type ℓ} (Q : B → Type κ) (m : Result E A) (n : Result E B)
    → Gives Q n
    → Gives Q (m >> n)
Gives-then Q (ok a) n q = q
Gives-then Q (raised e) n q = tt

-- A chain that gives a value has given one at each step.
pub bind_ok {ℓ} :
    {E A B : Type ℓ} (m : Result E A) (f : A → Result E B) (b : B)
    → (m >>= f) ≡ ok b
    → (a : A) × (m ≡ ok a) × (f a ≡ ok b)
bind_ok (ok a) f b h = (a, refl, h)
bind_ok (raised e) f b h = cc

-- What the second step guarantees of whatever it starts from.
pub Gives-after {ℓ κ} :
    {E A B : Type ℓ} (Q : B → Type κ) (m : Result E A) (f : A → Result E B)
    → ((a : A) → Gives Q (f a))
    → Gives Q (m >>= f)
Gives-after Q (ok a) f q = q a
Gives-after Q (raised e) f q = tt

pub Gives-ok {ℓ κ} :
    {E A : Type ℓ} (P : A → Type κ) (m : Result E A) (a : A) → m ≡ ok a → Gives P m → P a
Gives-ok P m a same h = subst (Gives P) same h
