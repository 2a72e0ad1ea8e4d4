-- ===== src/Prelude/Exec.antt =====
-- Code that changes a state and may raise: what was written before a raise stays written.
use mathlib.Core.Path.{◌≡◌, refl}
use mathlib.Core.Logic.{◌⊎◌, inl, inr}

-- The exceptions that some caller tells apart; `other` is any other `Exception`.
pub data Exn : Type 0 where
  budget_exhausted other : Exn

pub data Result {ℓ} (A : Type ℓ) : Type ℓ where
  ok : A → Result A
  err : Exn → Result A

pub Result-cases {ℓ} :
    {A : Type ℓ} (r : Result A) → ((a : A) × (r ≡ ok a)) ⊎ ((e : Exn) × (r ≡ err e))
Result-cases (ok a) = inl (a, refl)
Result-cases (err e) = inr (e, refl)

abbrev pub Exec {ℓ} : Type ℓ → Type ℓ → Type ℓ
Exec S A = S → Result A × S

module _ {ℓ} {S A : Type ℓ} where
  abbrev pub pure : A → Exec S A
  pure a s = (ok a, s)

  abbrev pub raise : Exn → Exec S A
  raise e s = (err e, s)

  abbrev pub clean : Result A → (S → S) → Exec S A
  clean (ok a) cleanup s = (ok a, s)
  clean (err e) cleanup s = (err e, cleanup s)

  -- `try: body` / `except Exception: cleanup; raise`, for a cleanup that raises nothing
  abbrev pub on_error : Exec S A → (S → S) → Exec S A
  on_error body cleanup s = let (r, s') = body s in clean r cleanup s'

module _ {ℓ} {S A B : Type ℓ} where
  abbrev pub continue : Result A → (A → Exec S B) → Exec S B
  continue (ok a) f s = f a s
  continue (err e) f s = (err e, s)

  infixl 10 ◌>>=◌ ◌>>◌
  abbrev pub ◌>>=◌ : Exec S A → (A → Exec S B) → Exec S B
  ◌>>=◌ m f s = let (r, s') = m s in continue r f s'

  abbrev pub ◌>>◌ : Exec S A → Exec S B → Exec S B
  m >> n = m >>= λ _. n

-- Rules for what holds of a result and of the state beside it.
module _ {ℓ κ μ} {S A B : Type ℓ} (Q : Result A → S → Type κ) (R : Result B → S → Type μ) where
  continue_ind :
      (r : Result A) (f : A → Exec S B) (s : S)
      → Q r s
      → ((a : A) (s' : S) → Q (ok a) s' → R (f a s').0 (f a s').1)
      → ((e : Exn) (s' : S) → Q (err e) s' → R (err e) s')
      → R (continue r f s).0 (continue r f s).1
  continue_ind (ok a) f s q good bad = good a s q
  continue_ind (err e) f s q good bad = bad e s q

  pub bind_ind :
      (m : Exec S A) (f : A → Exec S B) (s : S)
      → Q (m s).0 (m s).1
      → ((a : A) (s' : S) → Q (ok a) s' → R (f a s').0 (f a s').1)
      → ((e : Exn) (s' : S) → Q (err e) s' → R (err e) s')
      → R ((m >>= f) s).0 ((m >>= f) s).1
  bind_ind m f s q good bad = continue_ind (m s).0 f (m s).1 q good bad

module _ {ℓ κ μ} {S A : Type ℓ} (Q : Result A → S → Type κ) (R : Result A → S → Type μ) where
  cleanup_ind :
      (r : Result A) (cleanup : S → S) (s : S)
      → Q r s
      → ((a : A) (s' : S) → Q (ok a) s' → R (ok a) s')
      → ((e : Exn) (s' : S) → Q (err e) s' → R (err e) (cleanup s'))
      → R (clean r cleanup s).0 (clean r cleanup s).1
  cleanup_ind (ok a) cleanup s q good bad = good a s q
  cleanup_ind (err e) cleanup s q good bad = bad e s q

  pub on_error_ind :
      (m : Exec S A) (cleanup : S → S) (s : S)
      → Q (m s).0 (m s).1
      → ((a : A) (s' : S) → Q (ok a) s' → R (ok a) s')
      → ((e : Exn) (s' : S) → Q (err e) s' → R (err e) (cleanup s'))
      → R (on_error m cleanup s).0 (on_error m cleanup s).1
  on_error_ind m cleanup s q good bad = cleanup_ind (m s).0 cleanup (m s).1 q good bad
