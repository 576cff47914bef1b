-- ===== src/Base/Text/Decimal.antt =====
-- strconv.Atoi, strconv.Itoa and strconv.ParseUint in base 10, and that reading undoes printing.
use Prim.Native.Nat.{ℕ, zero, suc, ◌+◌, ◌-◌, ◌*◌, ◌/◌, ◌%◌, ◌^◌, ◌≤◌, ◌<◌}
use Prim.Native.Char.{Char, code}
use mathlib.Core.Path.{◌≡◌, refl, ◌∙◌, ap, subst}
use mathlib.Core.Logic.{◌≢◌}
use Prim.Native.String.{String}
use mathlib.Core.Bool.{Bool, ◌&&◌}
use mathlib.Core.Option.{Option, none, some}
use native.Mathlib.Omega.{arith}
use components_contrib.Base.Tests.{ltb, leb, nat_eq, if◌then◌else◌}
use components_contrib.Base.Signed.{ℤ, pos, negsuc}

abbrev is_digit : Char → Bool
is_digit c = leb b'0' (code c) && leb (code c) b'9'

-- The number that the digits spell behind `n`; `none` at another character.
scan : String → ℕ → Option ℕ
scan String.[] n = some n
scan (String.◌∷◌ c s) n =
    let rest = scan s (n * 10 + (code c - b'0')) in if is_digit c then rest else none

digits : String → Option ℕ
unfolding scan
digits String.[] = none
digits (String.◌∷◌ c s) = scan (String.◌∷◌ c s) 0

abbrev non_negative : Option ℕ → Option ℤ
non_negative none = none
non_negative (some n) = if ltb n (2 ^ 63) then some (pos n) else none

abbrev negative : Option ℕ → Option ℤ
negative none = none
negative (some zero) = some (pos 0)
negative (some (suc n)) = if ltb n (2 ^ 63) then some (negsuc n) else none

-- `strconv.Atoi`, with `none` for an error: a sign, then digits, within the range of an int64.
unfoldable pub atoi : String → Option ℤ
unfolding digits
atoi String.[] = none
atoi (String.◌∷◌ c s) =
    if nat_eq (code c) b'-'
    then negative (digits s)
    else if nat_eq (code c) b'+'
    then non_negative (digits s)
    else non_negative (digits (String.◌∷◌ c s))

-- The value that `strconv.ParseUint(s, 10, 32)` returns, also beside an error: 0 for a syntax error,
-- the largest uint32 as soon as the digits read so far pass it.
scan_uint32 : String → ℕ → ℕ
scan_uint32 String.[] n = n
scan_uint32 (String.◌∷◌ c s) n =
    let n' = n * 10 + (code c - b'0') in
    let rest = scan_uint32 s n' in
    if is_digit c then (if ltb n' (2 ^ 32) then rest else 2 ^ 32 - 1) else 0

unfoldable pub parse_uint32 : String → ℕ
unfolding scan_uint32
parse_uint32 s = scan_uint32 s 0

digit : ℕ → Char
digit zero = "0"
digit (suc zero) = "1"
digit (suc (suc zero)) = "2"
digit (suc (suc (suc zero))) = "3"
digit (suc (suc (suc (suc zero)))) = "4"
digit (suc (suc (suc (suc (suc zero))))) = "5"
digit (suc (suc (suc (suc (suc (suc zero)))))) = "6"
digit (suc (suc (suc (suc (suc (suc (suc zero))))))) = "7"
digit (suc (suc (suc (suc (suc (suc (suc (suc zero)))))))) = "8"
digit _ = "9"

-- The loop of `strconv.Itoa`, a digit a round. A number has fewer digits than `n + 1`.
emit : ℕ → ℕ → String → String
emit zero n out = out
emit (suc fuel) n out =
    let out' = String.◌∷◌ (digit (n % 10)) out in
    let rest = emit fuel (n / 10) out' in if ltb n 10 then out' else rest

-- `strconv.Itoa` of a number that is not negative; what Redis stores for a counter.
unfoldable pub print_nat : ℕ → String
unfolding digit emit
print_nat n = emit (n + 1) n ""

-- `strconv.Itoa`
unfoldable pub itoa : ℤ → String
itoa (pos n) = print_nat n
itoa (negsuc n) = String.◌∷◌ "-" (print_nat (n + 1))

code-digit : (d : ℕ) → d < 10 → code (digit d) ≡ b'0' + d
unfolding digit
code-digit zero h = refl
code-digit (suc zero) h = refl
code-digit (suc (suc zero)) h = refl
code-digit (suc (suc (suc zero))) h = refl
code-digit (suc (suc (suc (suc zero)))) h = refl
code-digit (suc (suc (suc (suc (suc zero))))) h = refl
code-digit (suc (suc (suc (suc (suc (suc zero)))))) h = refl
code-digit (suc (suc (suc (suc (suc (suc (suc zero))))))) h = refl
code-digit (suc (suc (suc (suc (suc (suc (suc (suc zero)))))))) h = refl
code-digit (suc (suc (suc (suc (suc (suc (suc (suc (suc zero))))))))) h = refl
code-digit (suc (suc (suc (suc (suc (suc (suc (suc (suc (suc d)))))))))) h = absurd (omega arith)

scan-digit :
    (d : ℕ) (s : String) (n : ℕ) → d < 10 → scan (String.◌∷◌ (digit d) s) n ≡ scan s (n * 10 + d)
unfolding scan
scan-digit d s n h =
    let e : code (digit d) - b'0' ≡ d = omega (arith, code-digit d h) in
    ground (arith, code-digit d h, e)

scan-emit : (fuel n : ℕ) (out : String) → n < fuel → scan (emit fuel n out) 0 ≡ scan out n
unfolding emit
scan-emit zero n out h = elim h [ ]
scan-emit (suc fuel) n out h = ground (
  arith,
  scan-digit (n % 10) out 0,
  scan-digit (n % 10) out (n / 10),
  scan-emit fuel (n / 10) (String.◌∷◌ (digit (n % 10)) out),
)

-- A text that begins with a digit.
abbrev StartsDigit : String → Type 0
StartsDigit String.[] = ⊥
StartsDigit (String.◌∷◌ c s) = (b'0' ≤ code c) × (code c ≤ b'9')

emit-StartsDigit : (fuel n : ℕ) (out : String) → n < fuel → StartsDigit (emit fuel n out)
unfolding emit
emit-StartsDigit zero n out h = elim h [ ]
emit-StartsDigit (suc fuel) n out h =
    ground
      (arith, code-digit (n % 10), emit-StartsDigit fuel (n / 10) (String.◌∷◌ (digit (n % 10)) out))

atoi_of_StartsDigit : (s : String) → StartsDigit s → atoi s ≡ non_negative (scan s 0)
unfolding atoi
atoi_of_StartsDigit String.[] h = absurd h
atoi_of_StartsDigit (String.◌∷◌ c s) h = ground arith

digits_of_StartsDigit : (s : String) → StartsDigit s → digits s ≡ scan s 0
unfolding digits
digits_of_StartsDigit String.[] h = absurd h
digits_of_StartsDigit (String.◌∷◌ c s) h = refl

scan-print_nat : (n : ℕ) → scan (print_nat n) 0 ≡ some n
unfolding print_nat
scan-print_nat n = scan-emit (n + 1) n "" (omega arith) ∙ (unfold scan in refl)

print_nat-StartsDigit : (n : ℕ) → StartsDigit (print_nat n)
unfolding print_nat
print_nat-StartsDigit n = emit-StartsDigit (n + 1) n "" (omega arith)

-- Reading what was printed gives the number back.
pub atoi-print_nat : (n : ℕ) → n < 2 ^ 63 → atoi (print_nat n) ≡ some (pos n)
atoi-print_nat n h =
    rw (atoi_of_StartsDigit (print_nat n) (print_nat-StartsDigit n), scan-print_nat n)
      (ground arith)

pub atoi-print_neg :
    (n : ℕ) → n < 2 ^ 63 → atoi (String.◌∷◌ "-" (print_nat (n + 1))) ≡ some (negsuc n)
atoi-print_neg n h =
    let e =
      digits_of_StartsDigit (print_nat (n + 1)) (print_nat-StartsDigit (n + 1))
      ∙ scan-print_nat (n + 1) in
    unfold atoi in rw e (ground arith)

-- Two numbers with the same print are one.
pub print_nat-injective : (m n : ℕ) → print_nat m ≡ print_nat n → m ≡ n
print_nat-injective m n e = cc (scan-print_nat m, scan-print_nat n, ap (λ s. scan s 0) e)

-- A print is never the empty text.
pub print_nat-ne-nil : (n : ℕ) → print_nat n ≢ ""
print_nat-ne-nil n e = subst StartsDigit e (print_nat-StartsDigit n)

pub itoa-pos : (n : ℕ) → itoa (pos n) ≡ print_nat n
unfolding itoa
itoa-pos n = refl

pub print_nat-zero : print_nat 0 ≡ "0"
unfolding print_nat
print_nat-zero = refl

abbrev pub IsInt64 : ℤ → Type 0
IsInt64 (pos n) = n < 2 ^ 63
IsInt64 (negsuc n) = n < 2 ^ 63

pub atoi-itoa : (x : ℤ) → IsInt64 x → atoi (itoa x) ≡ some x
unfolding itoa
atoi-itoa (pos n) h = atoi-print_nat n h
atoi-itoa (negsuc n) h = atoi-print_neg n h

reads :
    (atoi "-12" ≡ some (negsuc 11))
    × (atoi "9223372036854775808" ≡ none)
    × (atoi "1x" ≡ none)
    × (print_nat 1204 ≡ "1204")
    × (parse_uint32 "4294967296x" ≡ 4294967295)
unfolding atoi scan print_nat parse_uint32
reads = (refl, refl, refl, refl, refl)
