-- ===== src/Index/Yields.antt =====
-- A property of what a computation answers with, if it is no error.
use open_invar.Prelude.{◌≡◌, refl, subst}
use open_invar.Index.{Result, ok, err, ◌>>=◌}

abbrev pub Yields {ℓ κ} : {A : Type ℓ} → (A → Type κ) → Result A → Type κ
Yields Q (ok a) = Q a
Yields Q (err e) = Unit

pub Yields->>= {ℓ κ μ ν} :
    {A : Type ℓ} {B : Type κ} (Q : A → Type μ) (R : B → Type ν) (r : Result A) (f : A → Result B)
    → Yields Q r
    → ((a : A) → Q a → Yields R (f a))
    → Yields R (r >>= f)
Yields->>= Q R (ok a) f q step = step a q
Yields->>= Q R (err e) f q step = tt

pub Yields-weaken {ℓ κ μ} :
    {A : Type ℓ} (Q : A → Type κ) (R : A → Type μ) (r : Result A)
    → Yields Q r
    → ((a : A) → Q a → R a)
    → Yields R r
Yields-weaken Q R (ok a) q f = f a q
Yields-weaken Q R (err e) q f = tt

pub Yields-both {ℓ κ μ} :
    {A : Type ℓ} (Q : A → Type κ) (R : A → Type μ) (r : Result A)
    → Yields Q r
    → Yields R r
    → Yields (λ a. Q a × R a) r
Yields-both Q R (ok a) q h = (q, h)
Yields-both Q R (err e) q h = tt

pub Yields-any {ℓ} : {A : Type ℓ} (r : Result A) → Yields {ℓ, 0} (λ a. Unit) r
Yields-any (ok a) = tt
Yields-any (err e) = tt

pub Yields-ok {ℓ κ} :
    {A : Type ℓ} (Q : A → Type κ) (r : Result A) (a : A) → Yields Q r → r ≡ ok a → Q a
Yields-ok Q r a q e = subst (Yields Q) e q

-- Two continuations that agree where the first part answers.
pub >>=-same {ℓ κ μ ν} :
    {A : Type ℓ} {B : Type κ} (Q : A → Type μ) (R : B → Type ν) (r : Result A) (f h : A → Result B)
    → Yields Q r
    → ((a : A) → Q a → (f a ≡ h a) × Yields R (h a))
    → ((r >>= f) ≡ (r >>= h)) × Yields R (r >>= h)
>>=-same Q R (ok a) f h q step = step a q
>>=-same Q R (err e) f h q step = (refl, tt)
