-- ===== src/Go/Text.antt =====
-- strings.SplitN(s, sep, 2) for a separator of one byte, strings.HasPrefix, the verb %d, and
-- strconv.Atoi.
use Prim.Native.Char.{Char, code}
use datafuse_operator.Prelude.{
  ℕ, zero, suc, ◌+◌, ◌-◌, ◌*◌, ◌/◌, ◌%◌, ◌^◌, ◌≤◌, ◌<◌, String, ◌<>◌, Bool, true, false, ◌&&◌,
  Option, none, some, List, [], ◌∷◌, nat_eq, ltb, leb, if◌then◌else◌, ◌≡◌, refl, arith, ◌≢◌, ap,
  ◌∙◌,
}
use Prim.Native.String.append
use datafuse_operator.Prelude.{ap, ◌∙◌, Bool-cases, inl, inr}
use datafuse_operator.Go.Int.{ℤ, pos, negsuc, IsInt64}
use datafuse_operator.Go.Result.{Result, ok, err, external}

-- The text before the first separator and the text behind it.
unfoldable pub cut : ℕ → String → Option (String × String)
cut sep String.[] = none
cut sep (String.◌∷◌ c s) =
    let rest = cut sep s in
    if nat_eq (code c) sep
    then some ("", s)
    else elim rest [ none ↦ none | some (a, b) ↦ some (String.◌∷◌ c a, b) ]

-- strings.SplitN(s, sep, 2)
unfoldable pub split_n : ℕ → String → List String
unfolding cut
split_n sep s = elim (cut sep s) [ none ↦ s ∷ [] | some (a, b) ↦ a ∷ b ∷ [] ]

-- The text behind a prefix, if it begins with that.
strip : String → String → Option String
strip String.[] s = some s
strip (String.◌∷◌ c p) String.[] = none
strip (String.◌∷◌ c p) (String.◌∷◌ d s) =
    let rest = strip p s in if nat_eq (code c) (code d) then rest else none

-- strings.TrimPrefix, with the prefix first
unfoldable pub trim_prefix : String → String → String
unfolding strip
trim_prefix p s = elim (strip p s) [ none ↦ s | some rest ↦ rest ]

-- No character of the text is the separator.
abbrev pub Lacks : ℕ → String → Type 0
Lacks sep String.[] = Unit
Lacks sep (String.◌∷◌ c s) = (code c ≢ sep) × Lacks sep s

-- The digit of a number below ten.
unfoldable pub digit : ℕ → Char
digit zero = "0"
digit (suc zero) = "1"
digit (suc (suc zero)) = "2"
digit (suc (suc (suc zero))) = "3"
digit (suc (suc (suc (suc zero)))) = "4"
digit (suc (suc (suc (suc (suc zero))))) = "5"
digit (suc (suc (suc (suc (suc (suc zero)))))) = "6"
digit (suc (suc (suc (suc (suc (suc (suc zero))))))) = "7"
digit (suc (suc (suc (suc (suc (suc (suc (suc zero)))))))) = "8"
digit n = "9"

code-digit : (n : ℕ) → n < 10 → code (digit n) ≡ 48 + n
unfolding digit
code-digit zero h = refl
code-digit (suc zero) h = refl
code-digit (suc (suc zero)) h = refl
code-digit (suc (suc (suc zero))) h = refl
code-digit (suc (suc (suc (suc zero)))) h = refl
code-digit (suc (suc (suc (suc (suc zero))))) h = refl
code-digit (suc (suc (suc (suc (suc (suc zero)))))) h = refl
code-digit (suc (suc (suc (suc (suc (suc (suc zero))))))) h = refl
code-digit (suc (suc (suc (suc (suc (suc (suc (suc zero)))))))) h = refl
code-digit (suc (suc (suc (suc (suc (suc (suc (suc (suc n))))))))) h = omega arith

-- The digits of n in front of a text. Each round takes a digit off, so n + 1 rounds are enough.
unfoldable pub digits : ℕ → ℕ → String → String
digits zero n out = out
digits (suc fuel) n out =
    let more = digits fuel (n / 10) (String.◌∷◌ (digit (n % 10)) out) in
    if ltb n 10 then String.◌∷◌ (digit n) out else more

unfoldable pub show_nat : ℕ → String
unfolding digits digit
show_nat n = digits (suc n) n ""

-- fmt.Sprintf("%d", n)
unfoldable pub show_int : ℤ → String
unfolding show_nat
show_int (pos n) = show_nat n
show_int (negsuc n) = "-" <> show_nat (n + 1)

scan : String → ℕ → Option ℕ
scan String.[] n = some n
scan (String.◌∷◌ c s) n =
    let rest = scan s (n * 10 + (code c - 48)) in
    if leb 48 (code c) && leb (code c) 57 then rest else none

-- A text of digits, one at least.
unsigned : String → Option ℕ
unsigned String.[] = none
unsigned s = scan s 0

-- A value that is out of the range of int (64 bits) is an error, as is any text that is no number.
in_range : Bool → ℕ → String → Result ℤ
in_range false n s = if ltb n (2 ^ 63) then ok (pos n) else err (external 2 s)
in_range true zero s = ok (pos 0)
in_range true (suc n) s = if ltb n (2 ^ 63) then ok (negsuc n) else err (external 2 s)

number : Bool → Option ℕ → String → Result ℤ
number negative none s = err (external 1 s)
number negative (some n) s = in_range negative n s

-- strconv.Atoi
unfoldable pub atoi : String → Result ℤ
unfolding scan unsigned in_range number
atoi String.[] = err (external 1 "")
atoi (String.◌∷◌ c s) =
    if nat_eq (code c) b'-'
    then number true (unsigned s) (String.◌∷◌ c s)
    else if nat_eq (code c) b'+'
    then number false (unsigned s) (String.◌∷◌ c s)
    else number false (unsigned (String.◌∷◌ c s)) (String.◌∷◌ c s)

-- The text before the first separator, and the rest.
cut-append :
    (sep : ℕ) (a : String) (c : Char) (b : String)
    → Lacks sep a
    → code c ≡ sep
    → cut sep (a <> String.◌∷◌ c b) ≡ some (a, b)
unfolding cut
cut-append sep String.[] c b _ e = rw append.nil (ground arith)
cut-append sep (String.◌∷◌ d a) c b (h, hs) e =
    rw append.cons (ground (arith, cut-append sep a c b hs e))

-- Reading a digit takes it behind the number read so far.
scan-digit :
    (d m : ℕ) (out : String) → d < 10 → scan (String.◌∷◌ (digit d) out) m ≡ scan out (m * 10 + d)
unfolding scan
scan-digit d m out h =
    let e : m * 10 + (48 + d - 48) ≡ m * 10 + d = omega arith in
    rw (code-digit d h) (rw e (ground arith))

scan-digits : (fuel n : ℕ) (out : String) → n < fuel → scan (digits fuel n out) 0 ≡ scan out n
unfolding digits
scan-digits zero n out h = elim h [ ]
scan-digits (suc fuel) n out h = elim (Bool-cases (ltb n 10)) [
  | inl small ↦
      let e : 0 * 10 + n ≡ n = omega arith in
      rw small (scan-digit n 0 out (ground arith) ∙ ap (scan out) e)
  | inr large ↦
      let e : n / 10 * 10 + n % 10 ≡ n = omega arith in
      rw large (
        scan-digits fuel (n / 10) _ (ground arith)
        ∙ scan-digit (n % 10) (n / 10) out (omega arith)
        ∙ ap (scan out) e)
]

-- The text begins with a digit.
data BeginsWithDigit : String → Type 0 where
  begins : (c : Char) (s : String) → 48 ≤ code c → BeginsWithDigit (String.◌∷◌ c s)

digits-BeginsWithDigit :
    (fuel n : ℕ) (out : String) → n < fuel → BeginsWithDigit (digits fuel n out)
unfolding digits
digits-BeginsWithDigit zero n out h = elim h [ ]
digits-BeginsWithDigit (suc fuel) n out h = elim (Bool-cases (ltb n 10)) [
  | inl small ↦ rw small (begins (digit n) out (omega (arith, code-digit n (ground arith))))
  | inr large ↦ rw large (digits-BeginsWithDigit fuel (n / 10) _ (ground arith))
]

atoi_unsigned :
    (s : String) (n : ℕ)
    → BeginsWithDigit s
    → scan s 0 ≡ some n
    → (atoi s ≡ number false (some n) s) × (atoi ("-" <> s) ≡ number true (some n) ("-" <> s))
unfolding atoi
atoi_unsigned _ n (begins c s d) e =
    (rw e (ground arith), rw (append.cons, append.nil) (rw e (ground arith)))

show_nat_lem : (n : ℕ) → BeginsWithDigit (show_nat n) × (scan (show_nat n) 0 ≡ some n)
unfolding show_nat scan
show_nat_lem n =
    (digits-BeginsWithDigit (suc n) n "" (omega arith), scan-digits (suc n) n "" (omega arith))

in_range_of_int64 :
    (n : ℕ) (s : String)
    → n < 2 ^ 63
    → (in_range false n s ≡ ok (pos n)) × (in_range true (suc n) s ≡ ok (negsuc n))
unfolding in_range
in_range_of_int64 n s h = ground arith

-- strconv.Atoi reads back what %d prints, for every value of int64.
pub atoi-show_int : (n : ℤ) → IsInt64 n → atoi (show_int n) ≡ ok n
unfolding show_int number
atoi-show_int (pos n) h =
    (atoi_unsigned _ n (show_nat_lem n).0 (show_nat_lem n).1).0 ∙ (in_range_of_int64 n _ h).0
atoi-show_int (negsuc n) h =
    let e : n + 1 ≡ suc n = omega arith in
    (atoi_unsigned _ (n + 1) (show_nat_lem (n + 1)).0 (show_nat_lem (n + 1)).1).1
    ∙ rw e (in_range_of_int64 n _ h).1

pub split_n-append :
    (sep : ℕ) (a : String) (c : Char) (b : String)
    → Lacks sep a
    → code c ≡ sep
    → split_n sep (a <> String.◌∷◌ c b) ≡ a ∷ b ∷ []
unfolding split_n
split_n-append sep a c b h e = rw (cut-append sep a c b h e, split_n)

test_show : show_int (negsuc 8079) ≡ "-8080"
unfolding show_int
test_show = refl

test_atoi : atoi "-8080" ≡ ok (negsuc 8079)
unfolding atoi
test_atoi = refl

strip-append : (p s : String) → strip p (p <> s) ≡ some s
unfolding strip
strip-append String.[] s = rw append.nil refl
strip-append (String.◌∷◌ c p) s = rw append.cons (ground (arith, strip-append p s))

-- What is behind a prefix.
pub trim_prefix-append : (p s : String) → trim_prefix p (p <> s) ≡ s
unfolding trim_prefix
trim_prefix-append p s = rw (strip-append p s, trim_prefix) refl
