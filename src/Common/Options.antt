-- ===== src/Common/Options.antt =====
-- What holds of an optional result.
use package.crimson_desert_online_mo.Common.Tests.{◌>>=◌, if◌then◌else◌}
use mathlib.Core.Bool.{Bool, true, false}
use mathlib.Core.Option.{Option, none, some}

-- What holds of a result that is there.
abbrev pub Each {ℓ κ} : {A : Type ℓ} → (A → Type κ) → Option A → Type κ
Each P none = Unit {κ}
Each P (some a) = P a

pub bind-Each {ℓ κ μ} :
    {A : Type ℓ} {B : Type κ} (P : B → Type μ) (o : Option A) (f : A → Option B)
    → ((a : A) → Each P (f a))
    → Each P (o >>= f)
bind-Each P none f h = tt
bind-Each P (some a) f h = h a

-- The same where what holds of the first result is needed.
pub bind-Each_from {ℓ κ μ ν} :
    {A : Type ℓ} {B : Type κ} (Q : A → Type ν) (P : B → Type μ) (o : Option A) (f : A → Option B)
    → Each Q o
    → ((a : A) → Q a → Each P (f a))
    → Each P (o >>= f)
bind-Each_from Q P none f q h = tt
bind-Each_from Q P (some a) f q h = h a q

-- What holds of both branches.
pub if_either {ℓ κ} :
    {A : Type ℓ} (P : A → Type κ) (b : Bool) (x y : A) → P x → P y → P (if b then x else y)
if_either P true x y p q = p
if_either P false x y p q = q
