-- ===== src/Prelude/Decimal.antt =====
-- Decimal text: strconv.Itoa, strconv.Atoi on plain digits, strconv.ParseUint, and the verb %0Nd of
-- fmt for numbers that are not negative.
use k8s.Prelude.Tests.{ltb, leb, if◌then◌else◌}
use k8s.Prelude.Lists.{length, length-append, all, all-append}
use k8s.Prelude.Int.{ℤ, pos, negsuc}
use k8s.Prelude.Text.{Str}
use Prim.Native.Nat.{ℕ, zero, suc, ◌+◌, ◌-◌, ◌*◌, ◌/◌, ◌%◌, ◌≤◌}
use mathlib.Core.Path.{◌≡◌, refl, ap, sym, ◌∙◌}
use mathlib.Core.Bool.{Bool, true, ◌&&◌}
use mathlib.Core.List.{[], ◌∷◌, ◌++◌}
use native.Mathlib.Omega.{arith}

unfoldable pub is_digit : ℕ → Bool
is_digit c = leb b'0' c && leb c b'9'

-- The digits of `n`, the least first, as one more digit than the fuel has rounds.
unfoldable pub digits_rev : ℕ → ℕ → Str
digits_rev zero n = (48 + n % 10) ∷ []
digits_rev (suc f) n =
    let rest = digits_rev f (n / 10) in if ltb n 10 then (48 + n) ∷ [] else (48 + n % 10) ∷ rest

unfoldable pub rev_onto : Str → Str → Str
rev_onto [] acc = acc
rev_onto (c ∷ s) acc = rev_onto s (c ∷ acc)

-- `n` is fuel enough, since each round divides by ten.
unfoldable pub decimal : ℕ → Str
unfolding digits_rev rev_onto
decimal n = rev_onto (digits_rev n n) []

-- strconv.Itoa.
unfoldable pub itoa : ℤ → Str
unfolding decimal
itoa (pos n) = decimal n
itoa (negsuc n) = b'-' ∷ decimal (suc n)

-- The number that a text of digits stands for, after the digits read so far.
unfoldable pub value_from : ℕ → Str → ℕ
value_from n [] = n
value_from n (c ∷ s) = value_from (n * 10 + (c - 48)) s

unfoldable pub value : Str → ℕ
unfolding value_from
value s = value_from 0 s

unfoldable pub zeros : ℕ → Str
zeros zero = []
zeros (suc n) = b'0' ∷ zeros n

-- fmt.Sprintf("%0Nd", n) for a width N.
unfoldable pub pad_zeros : ℕ → Str → Str
unfolding zeros
pad_zeros w s = zeros (w - length s) ++ s

-- The value of digits that are read from the least.
value_rev : Str → ℕ
value_rev [] = 0
value_rev (c ∷ s) = (c - 48) + 10 * value_rev s

value_rev-digits_rev : (f n : ℕ) → n ≤ f → value_rev (digits_rev f n) ≡ n
unfolding value_rev digits_rev
value_rev-digits_rev zero n h = omega arith
value_rev-digits_rev (suc f) n h = ground (arith, value_rev-digits_rev f (n / 10))

value_from-rev_onto : (s acc : Str) → value_from 0 (rev_onto s acc) ≡ value_from (value_rev s) acc
unfolding value_rev value_from rev_onto
value_from-rev_onto [] acc = refl
value_from-rev_onto (c ∷ s) acc =
    value_from-rev_onto s (c ∷ acc) ∙ ap (λ n. value_from n acc) (omega arith)

-- Printing and reading give the number back.
pub value-decimal : (n : ℕ) → value (decimal n) ≡ n
unfolding value decimal
value-decimal n =
    value_from-rev_onto (digits_rev n n) []
    ∙ unfold value_from in value_rev-digits_rev n n (omega arith)

pub decimal-injective : (m n : ℕ) → decimal m ≡ decimal n → m ≡ n
decimal-injective m n e = sym (value-decimal m) ∙ ap value e ∙ value-decimal n

all-rev_onto :
    (s acc : Str)
    → all is_digit s ≡ true
    → all is_digit acc ≡ true
    → all is_digit (rev_onto s acc) ≡ true
unfolding all rev_onto
all-rev_onto [] acc h k = k
all-rev_onto (c ∷ s) acc h k = ground (arith, all-rev_onto s (c ∷ acc))

all-digits_rev : (f n : ℕ) → all is_digit (digits_rev f n) ≡ true
unfolding all digits_rev is_digit
all-digits_rev zero n = ground arith
all-digits_rev (suc f) n = ground (arith, all-digits_rev f (n / 10))

pub all-decimal : (n : ℕ) → all is_digit (decimal n) ≡ true
unfolding decimal
all-decimal n = all-rev_onto (digits_rev n n) [] (all-digits_rev n n) (unfold all in refl)

value_from-append : (n : ℕ) (s t : Str) → value_from n (s ++ t) ≡ value_from (value_from n s) t
unfolding value_from
value_from-append n [] t = refl
value_from-append n (c ∷ s) t = value_from-append (n * 10 + (c - 48)) s t

value_from-zeros : (k : ℕ) → value_from 0 (zeros k) ≡ 0
unfolding value_from zeros
value_from-zeros zero = refl
value_from-zeros (suc k) = value_from-zeros k

-- Padding does not change the value, so it is injective too.
pub value-pad_zeros : (w : ℕ) (s : Str) → value (pad_zeros w s) ≡ value s
unfolding value pad_zeros
value-pad_zeros w s =
    value_from-append 0 (zeros (w - length s)) s
    ∙ ap (λ n. value_from n s) (value_from-zeros (w - length s))

length-zeros : (n : ℕ) → length (zeros n) ≡ n
unfolding zeros
length-zeros zero = refl
length-zeros (suc n) = ap suc (length-zeros n)

pub length-pad_zeros :
    (w : ℕ) (s : Str) → (w ≤ length (pad_zeros w s)) × (length s ≤ length (pad_zeros w s))
unfolding pad_zeros
length-pad_zeros w s = (
  omega (arith, length-append (zeros (w - length s)) s, length-zeros (w - length s)),
  omega (arith, length-append (zeros (w - length s)) s),
)

all-zeros : (n : ℕ) → all is_digit (zeros n) ≡ true
unfolding all zeros is_digit
all-zeros zero = refl
all-zeros (suc n) = all-zeros n

pub all-pad_zeros : (w : ℕ) (s : Str) → all is_digit s ≡ true → all is_digit (pad_zeros w s) ≡ true
unfolding pad_zeros
all-pad_zeros w s h =
    ground (arith, all-append is_digit (zeros (w - length s)) s, all-zeros (w - length s))

length-rev_onto : (s acc : Str) → length (rev_onto s acc) ≡ length s + length acc
unfolding rev_onto
length-rev_onto [] acc = omega arith
length-rev_onto (c ∷ s) acc = omega (arith, length-rev_onto s (c ∷ acc))

digits_rev_nonempty : (f n : ℕ) → 1 ≤ length (digits_rev f n)
unfolding digits_rev
digits_rev_nonempty zero n = omega arith
digits_rev_nonempty (suc f) n = ground arith

pub decimal_nonempty : (n : ℕ) → 1 ≤ length (decimal n)
unfolding decimal
decimal_nonempty n = omega (arith, length-rev_onto (digits_rev n n) [], digits_rev_nonempty n n)
