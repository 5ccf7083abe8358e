-- ===== src/Go/Result.antt =====
-- Errors and panics. A function of the source that returns an error gives `ok` or `err`; a nil pointer
-- that is followed, an index out of range and a write to a nil map give `panic`.
use datafuse_operator.Prelude.{String, Option, none, some, ℕ, ◌≡◌, refl}

-- `errorf` is an error that the source makes by fmt.Errorf; `external` is one that a library returns,
-- with a code that stands for its kind.
pub data GoError : Type 0 where
  errorf : String → GoError
  external : ℕ → String → GoError

pub data Result {ℓ} (A : Type ℓ) : Type ℓ where
  ok : A → Result A
  err : GoError → Result A
  panic : Result A

module _ {ℓ κ} {A : Type ℓ} {B : Type κ} where
  infixl 5 ◌>>=◌
  abbrev pub ◌>>=◌ : Result A → (A → Result B) → Result B
  panic >>= next = panic
  err problem >>= next = err problem
  ok value >>= next = next value

  -- Inversion of a successful chain.
  pub bind-eq-ok :
      (first : Result A) (next : A → Result B) {end : B}
      → (first >>= next) ≡ ok end
      → (value : A) × (first ≡ ok value) × (next value ≡ ok end)
  bind-eq-ok panic next h = cc
  bind-eq-ok (err problem) next h = cc
  bind-eq-ok (ok value) next h = (value, refl, h)

infixl 5 ◌>>◌
abbrev pub ◌>>◌ {ℓ κ} : {A : Type ℓ} {B : Type κ} → Result A → Result B → Result B
first >> second = first >>= λ _. second

-- `*p`
abbrev pub deref {ℓ} : {A : Type ℓ} → Option A → Result A
deref none = panic
deref (some a) = ok a

pub ok-injective {ℓ} : {A : Type ℓ} {a b : A} → ◌≡◌ {A = Result A} (ok a) (ok b) → a ≡ b
ok-injective h = cc h
