-- ===== src/Go/Holds.antt =====
-- What holds behind statements with effects, whatever they answer: an error keeps what was done, and a
-- panic does not occur.
use datafuse_operator.Prelude.{◌≡◌}
use datafuse_operator.Go.Result.{Result, ok, err, panic}
use datafuse_operator.Go.Exec.{Exec, continue, attempt, error_value, ◌>>=◌, ◌>>◌}

-- No panic, and a value has a property.
abbrev pub Gives : {A : Type 0} → (A → Type 0) → Result A → Type 0
Gives R (ok a) = R a
Gives R (err _) = Unit
Gives R panic = ⊥

-- The same of a run, with a property of the state behind it.
abbrev pub Holds : {S A : Type 0} → (S → Type 0) → (A → Type 0) → Result A × S → Type 0
Holds P R (r, s) = Gives R r × P s

abbrev pub Any : {A : Type 0} → A → Type 0
Any _ = Unit

module _ {S : Type 0} {A B : Type 0} (P : S → Type 0) (R : A → Type 0) (T : B → Type 0) where
  pub Holds-bind :
      (m : Exec S A) (f : A → Exec S B) (s : S)
      → Holds P R (m s)
      → ((a : A) (t : S) → R a → P t → Holds P T (f a t))
      → Holds P T ((m >>= f) s)
  Holds-bind m f s (given, kept) next = go (m s).0 (m s).1 given kept
    where
      go : (r : Result A) (t : S) → Gives R r → P t → Holds P T (continue r f t)
      go (ok a) t given kept = next a t given kept
      go (err e) t _ kept = (tt, kept)
      go panic t given _ = elim given [ ]

-- A run to the end, without an error, and a property of the state behind it.
abbrev pub Completes : {S : Type 0} → (S → Type 0) → Result (Unit {0}) × S → Type 0
Completes P (r, s) = (r ≡ ok tt) × P s

-- An error that is a value does not end a run.
pub Completes-attempt :
    {S A : Type 0} (P Q : S → Type 0) (m : Exec S A) (k : Exec S (Unit {0})) (s : S)
    → Holds P Any (m s)
    → ((t : S) → P t → Completes Q (k t))
    → Completes Q ((attempt m >> k) s)
Completes-attempt {S} {A} P Q m k s (given, kept) next = go (m s).0 (m s).1 given kept
  where
    go :
        (r : Result A) (t : S)
        → Gives Any r
        → P t
        → Completes Q (continue (error_value r) (λ _. k) t)
    go (ok _) t _ p = next t p
    go (err _) t _ p = next t p
    go panic t given _ = elim given [ ]
