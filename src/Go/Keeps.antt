-- ===== src/Go/Keeps.antt =====
-- What statements with effects keep, whether they end, fail or panic.
use datafuse_operator.Prelude.{Bool, true, false, if◌then◌else◌, ◌≡◌, refl}
use datafuse_operator.Go.Result.{Result, ok, err, panic}
use datafuse_operator.Go.Exec.{Exec, continue, attempt, ◌>>=◌}

-- A property of the state that holds behind a run when it held before.
abbrev pub Keeps : {S A : Type 0} → (S → Type 0) → Exec S A → Type 0
Keeps {S} P m = (s : S) → P s → P (m s).1

pub Keeps-bind :
    {S A B : Type 0} (P : S → Type 0) (m : Exec S A) (f : A → Exec S B)
    → Keeps P m
    → ((a : A) → Keeps P (f a))
    → Keeps P (m >>= f)
Keeps-bind {S} {A} P m f first next s h = go (m s).0 (m s).1 (first s h)
  where
    go : (r : Result A) (t : S) → P t → P (continue r f t).1
    go (ok a) t k = next a t k
    go (err e) t k = k
    go panic t k = k

pub Keeps-attempt : {S A : Type 0} (P : S → Type 0) (m : Exec S A) → Keeps P m → Keeps P (attempt m)
Keeps-attempt P m first s h = first s h

pub Keeps-if :
    {S A : Type 0} (P : S → Type 0) (b : Bool) (m k : Exec S A)
    → Keeps P m
    → Keeps P k
    → Keeps P (if b then m else k)
Keeps-if P true m k first second = first
Keeps-if P false m k first second = second

-- The same for one state, with the value that the first statement gives.
pub state-bind :
    {S A B : Type 0} (P : S → Type 0) (m : Exec S A) (f : A → Exec S B) (s : S)
    → P (m s).1
    → ((a : A) → (m s).0 ≡ ok a → P (f a (m s).1).1)
    → P ((m >>= f) s).1
state-bind {S} {A} P m f s first next = go (m s).0 refl
  where
    go : (r : Result A) → (m s).0 ≡ r → P (continue r f (m s).1).1
    go (ok a) e = next a e
    go (err e) _ = first
    go panic _ = first

-- The same as Keeps-bind, with what is known of a value that the first statement gives.
pub Keeps-bind_of :
    {S A B : Type 0} (P : S → Type 0) (V : A → Type 0) (m : Exec S A) (f : A → Exec S B)
    → Keeps P m
    → ((s : S) (a : A) → (m s).0 ≡ ok a → V a)
    → ((a : A) → V a → Keeps P (f a))
    → Keeps P (m >>= f)
Keeps-bind_of P V m f first gives next s h =
    state-bind P m f s (first s h) (λ a e. next a (gives s a e) (m s).1 (first s h))
