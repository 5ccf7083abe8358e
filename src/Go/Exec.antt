-- ===== src/Go/Exec.antt =====
-- Statements with effects: a state is passed through, and what was done before an error or a panic
-- stays done.
use datafuse_operator.Prelude.{Option, none, some, List, [], ◌∷◌}
use datafuse_operator.Go.Result.{Result, GoError, ok, err, panic}

abbrev pub Exec {ℓ} : Type ℓ → Type ℓ → Type ℓ
Exec S A = S → Result A × S

module _ {ℓ} {S A : Type ℓ} where
  abbrev pub pure : A → Exec S A
  pure a s = (ok a, s)

  abbrev pub raise : GoError → Exec S A
  raise e s = (err e, s)

  abbrev pub lift : Result A → Exec S A
  lift r s = (r, s)

module _ {ℓ} {S A B : Type ℓ} where
  abbrev pub continue : Result A → (A → Exec S B) → Exec S B
  continue (ok a) f s = f a s
  continue (err e) f s = (err e, s)
  continue panic f s = (panic, s)

  infixl 5 ◌>>=◌ ◌>>◌
  abbrev pub ◌>>=◌ : Exec S A → (A → Exec S B) → Exec S B
  ◌>>=◌ m f s = let (r, s') = m s in continue r f s'

  abbrev pub ◌>>◌ : Exec S A → Exec S B → Exec S B
  m >> k = m >>= λ _. k

-- `err := f()`: the error is a value, and a panic goes on.
abbrev pub error_value {ℓ} : {A : Type ℓ} → Result A → Result (Option GoError)
error_value (ok a) = ok none
error_value (err e) = ok (some e)
error_value panic = panic

abbrev pub attempt : {S A : Type 0} → Exec S A → Exec S (Option GoError)
attempt m s = let (r, s') = m s in (error_value r, s')

-- `for _, x := range xs { if err := f(x); err != nil { return err } }`
unfoldable pub for_each : {S A : Type 0} → (A → Exec S (Unit {0})) → List A → Exec S (Unit {0})
for_each f [] = pure tt
for_each f (x ∷ xs) = let rest = for_each f xs in f x >> rest
