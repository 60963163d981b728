-- ===== src/Prelude/Results.antt =====
-- Chains of calls that may fail, and what a result that is there has.
use mathlib.Core.Option.{Option, none, some}

infixl 5 ◌>>=◌
abbrev pub ◌>>=◌ : {A B : Type 0} → Option A → (A → Option B) → Option B
none >>= f = none
some a >>= f = f a

-- The code gives a result, and it has the property.
abbrev pub Yields : {A : Type 0} → (A → Type 0) → Option A → Type 0
Yields P none = ⊥
Yields P (some a) = P a

pub Yields-map :
    {A : Type 0} (P Q : A → Type 0) (o : Option A) → ((x : A) → P x → Q x) → Yields P o → Yields Q o
Yields-map P Q none f h = h
Yields-map P Q (some x) f h = f x h

pub Yields-bind :
    {A B : Type 0} (P : A → Type 0) (Q : B → Type 0) (o : Option A) (g : A → Option B)
    → Yields P o
    → ((x : A) → P x → Yields Q (g x))
    → Yields Q (o >>= g)
Yields-bind P Q none g h f = h
Yields-bind P Q (some x) g h f = f x h

-- If there is a result, it has the property.
abbrev pub OnSome : {A : Type 0} → (A → Type 0) → Option A → Type 0
OnSome P none = Unit
OnSome P (some a) = P a

pub OnSome-map :
    {A : Type 0} (P Q : A → Type 0) (o : Option A) → ((x : A) → P x → Q x) → OnSome P o → OnSome Q o
OnSome-map P Q none f h = tt
OnSome-map P Q (some x) f h = f x h
