-- ===== src/Channel/Number.antt =====
-- core/Channel.go: the numbers in its messages, as strconv reads them.
use Prim.Native.Char.{Char, code}
use Prim.Native.String.{String, [], ◌∷◌, ◌++◌ as text_append}
use text.Mathlib.TextLemmas.{append-nil, append_assoc}
use majula.Prelude.{
  ℕ, zero, suc, ◌+◌, ◌-◌, ◌/◌, ◌%◌, ◌^◌, ◌<◌, ◌≤◌, ◌≡◌, refl, sym, ap, ◌∙◌, Option, none, some,
  Bool, true, false, if◌then◌else◌, leb, ltb, ◌==◌, arith, Bool-cases, inl, inr,
}
use majula.Prelude.Int.{ℤ, pos, negsuc}
use majula.Mesh.Receive.{decimal, decimal_from, digit}
use majula.Routes.{wrap64}
use majula.Store.Text.{parse_from, is_digit}
use majula.Store.Keys.{parse_from-digit, ten_to}

-- At least one digit.
unfoldable pub parse_digits : String → Option ℕ
parse_digits [] = none
parse_digits (c ∷ s) = parse_from 0 (c ∷ s)

-- A number with the sign it has, in the range of an int64.
unfoldable pub signed : Bool → Option ℕ → Option ℤ
signed negative none = none
signed false (some n) = if ltb n (2 ^ 63) then some (pos n) else none
signed true (some zero) = some (pos 0)
signed true (some (suc n)) = if ltb n (2 ^ 63) then some (negsuc n) else none

unfoldable pub parse_int64 : String → Option ℤ
parse_int64 [] = none
parse_int64 (c ∷ s) =
    if code c == 45
    then signed true (parse_digits s)
    else if code c == 43
    then signed false (parse_digits s)
    else signed false (parse_digits (c ∷ s))

-- now - z on int64s
unfoldable pub sub64 : ℕ → ℤ → ℤ
sub64 now (pos t) = if leb t now then pos (now - t) else negsuc (t - now - 1)
sub64 now (negsuc t) = wrap64 (pos (now + t + 1))

parse_from-decimal_from :
    (fuel n : ℕ) (s : String)
    → n < ten_to (suc fuel)
    → parse_from 0 (text_append (decimal_from fuel n) s) ≡ parse_from n s
unfolding decimal_from
parse_from-decimal_from zero n s h =
    parse_from-digit 0 n s (omega arith) ∙ ap (λ m. parse_from m s) (omega arith)
parse_from-decimal_from (suc fuel) n s h = elim (Bool-cases (ltb n 10)) [
  | inl e ↦ rw e (parse_from-digit 0 n s (ground arith) ∙ ap (λ m. parse_from m s) (omega arith))
  | inr e ↦ rw e (
      ap (parse_from 0) (append_assoc (decimal_from fuel (n / 10)) (digit (n % 10)) s)
      ∙ parse_from-decimal_from fuel (n / 10) (text_append (digit (n % 10)) s) (omega arith)
      ∙ parse_from-digit (n / 10) (n % 10) s (omega arith)
      ∙ ap (λ m. parse_from m s) (omega arith))
]

parse_from-decimal : (n : ℕ) → n < 2 ^ 63 → parse_from 0 (decimal n) ≡ some n
unfolding decimal parse_from
parse_from-decimal n h =
    ap (parse_from 0) (sym (append-nil (decimal_from 25 n)))
    ∙ parse_from-decimal_from 25 n "" (omega arith)

no_digits : (n : ℕ) → parse_from 0 "" ≡ some (suc n) → ⊥
unfolding parse_from
no_digits n e = ground arith

digit_code : (c : Char) → is_digit c ≡ true → 48 ≤ code c
unfolding is_digit
digit_code c d = ground arith

no_digit : (c : Char) (s : String) → is_digit c ≡ false → parse_from 0 (c ∷ s) ≡ none
unfolding parse_from
no_digit c s d = ground arith

read_back :
    (t : String) (n : ℕ)
    → n < 2 ^ 63
    → parse_from 0 t ≡ some (suc n)
    → parse_int64 t ≡ signed false (some (suc n))
unfolding parse_int64 parse_digits
read_back [] n h e = absurd (no_digits n e)
read_back (c ∷ s) n h e = elim (Bool-cases (is_digit c)) [
  | inl d ↦ ground (arith, digit_code c d, ap (signed false) e)
  | inr d ↦ absurd (ground (arith, no_digit c s d))
]

zero_time : parse_int64 (decimal 0) ≡ some (pos 0)
unfolding parse_int64 decimal decimal_from digit parse_digits parse_from is_digit signed
zero_time = refl

-- A time before 2^63 is read back from its decimal digits.
pub parse_int64-decimal : (n : ℕ) → n < 2 ^ 63 → parse_int64 (decimal n) ≡ some (pos n)
unfolding signed
parse_int64-decimal zero h = zero_time
parse_int64-decimal (suc n) h =
    read_back (decimal (suc n)) n (omega arith) (parse_from-decimal (suc n) h) ∙ ground arith
