-- ===== src/Json/Outcomes.antt =====
-- What holds of the result of a call, if it is not a fault; and, where it has fuel, that the fuel did
-- not run out.
use jcontainers_ng.Common.{Option, none, some}
use jcontainers_ng.Index.{Exec, done, fault, ◌>>=◌}

-- The next call, when neither a fault nor the fuel ended the last.
abbrev pub and_then {ℓ κ} :
    {A : Type ℓ} {B : Type κ} → Exec (Option A) → (A → Exec (Option B)) → Exec (Option B)
and_then fault f = fault
and_then (done none) f = done none
and_then (done (some a)) f = f a

abbrev pub Ensures {ℓ κ} : {A : Type ℓ} → (A → Type κ) → Exec A → Type κ
Ensures P (done a) = P a
Ensures P fault = Unit

abbrev pub Returns {ℓ} : {A : Type ℓ} → (A → Type 0) → Exec (Option A) → Type 0
Returns P fault = Unit
Returns P (done none) = ⊥
Returns P (done (some a)) = P a

pub Ensures->>= {ℓ κ μ ν} :
    {A : Type ℓ} {B : Type κ} (P : A → Type μ) (Q : B → Type ν) (m : Exec A) (f : A → Exec B)
    → Ensures P m
    → ((a : A) → P a → Ensures Q (f a))
    → Ensures Q (m >>= f)
Ensures->>= P Q (done a) f h k = k a h
Ensures->>= P Q fault f h k = tt

pub Returns->>= {ℓ κ μ} :
    {A : Type ℓ} {B : Type κ} (P : A → Type μ) (Q : B → Type 0) (m : Exec A)
    (f : A → Exec (Option B))
    → Ensures P m
    → ((a : A) → P a → Returns Q (f a))
    → Returns Q (m >>= f)
Returns->>= P Q (done a) f h k = k a h
Returns->>= P Q fault f h k = tt

pub Returns-and_then {ℓ κ} :
    {A : Type ℓ} {B : Type κ} (P : A → Type 0) (Q : B → Type 0) (m : Exec (Option A))
    (f : A → Exec (Option B))
    → Returns P m
    → ((a : A) → P a → Returns Q (f a))
    → Returns Q (and_then m f)
Returns-and_then P Q (done (some a)) f h k = k a h
Returns-and_then P Q (done none) f h k = h
Returns-and_then P Q fault f h k = tt

pub Returns-mono {ℓ} :
    {A : Type ℓ} (P Q : A → Type 0) (m : Exec (Option A))
    → Returns P m
    → ((a : A) → P a → Q a)
    → Returns Q m
Returns-mono P Q (done (some a)) h k = k a h
Returns-mono P Q (done none) h k = h
Returns-mono P Q fault h k = tt
