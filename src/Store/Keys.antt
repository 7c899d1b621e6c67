-- ===== src/Store/Keys.antt =====
-- core/RaftStorage.go: the key of a log entry gives its index back.
use Prim.Native.Char.{Char, code}
use Prim.Native.String.{String, [], ◌∷◌, ◌++◌ as text_append}
use text.Mathlib.TextLemmas.{nil-append, cons-append, append-nil, append_assoc}
use majula.Prelude.{
  ℕ, zero, suc, ◌+◌, ◌*◌, ◌/◌, ◌%◌, ◌^◌, ◌<◌, ◌≡◌, sym, ap, ◌∙◌, some, true, arith, str_eq, eq_iff,
  ◌==◌,
}
use majula.Mesh.Receive.{digit}
use majula.Store.Text.{
  fixed_digits, index_key, is_digit, parse_from, parse_int, or_zero, strip_prefix,
}

same_code : (c : Char) → (code c == code c) ≡ true
same_code c = ground arith

pub strip_prefix-append : (p s : String) → strip_prefix p (text_append p s) ≡ some s
unfolding strip_prefix
strip_prefix-append [] s = ap (strip_prefix "") (nil-append s)
strip_prefix-append (c ∷ p) s =
    ap (strip_prefix (c ∷ p)) (cons-append c p s) ∙ rw (same_code c) (strip_prefix-append p s)

single : (c : Char) (s : String) → text_append (c ∷ []) s ≡ c ∷ s
single c s = cons-append c [] s ∙ ap (λ t. c ∷ t) (nil-append s)

pub parse_from-digit :
    (acc n : ℕ) (s : String)
    → n < 10
    → parse_from acc (text_append (digit n) s) ≡ parse_from (acc * 10 + n) s
unfolding digit parse_from is_digit
parse_from-digit acc zero s h = ap (parse_from acc) (single "0" s)
parse_from-digit acc (suc zero) s h = ap (parse_from acc) (single "1" s)
parse_from-digit acc (suc (suc zero)) s h = ap (parse_from acc) (single "2" s)
parse_from-digit acc (suc (suc (suc zero))) s h = ap (parse_from acc) (single "3" s)
parse_from-digit acc (suc (suc (suc (suc zero)))) s h = ap (parse_from acc) (single "4" s)
parse_from-digit acc (suc (suc (suc (suc (suc zero))))) s h = ap (parse_from acc) (single "5" s)
parse_from-digit acc (suc (suc (suc (suc (suc (suc zero)))))) s h =
    ap (parse_from acc) (single "6" s)
parse_from-digit acc (suc (suc (suc (suc (suc (suc (suc zero))))))) s h =
    ap (parse_from acc) (single "7" s)
parse_from-digit acc (suc (suc (suc (suc (suc (suc (suc (suc zero)))))))) s h =
    ap (parse_from acc) (single "8" s)
parse_from-digit acc (suc (suc (suc (suc (suc (suc (suc (suc (suc zero))))))))) s h =
    ap (parse_from acc) (single "9" s)
parse_from-digit acc (suc (suc (suc (suc (suc (suc (suc (suc (suc (suc n)))))))))) s h =
    absurd (omega arith)

abbrev digits_value : ℕ → ℕ → ℕ → ℕ
digits_value zero n acc = acc
digits_value (suc k) n acc = digits_value k (n / 10) acc * 10 + n % 10

abbrev pub ten_to : ℕ → ℕ
ten_to zero = 1
ten_to (suc k) = 10 * ten_to k

parse_from-fixed_digits :
    (k n acc : ℕ) (s : String)
    → parse_from acc (text_append (fixed_digits k n) s) ≡ parse_from (digits_value k n acc) s
unfolding fixed_digits
parse_from-fixed_digits zero n acc s = ap (parse_from acc) (nil-append s)
parse_from-fixed_digits (suc k) n acc s =
    ap (parse_from acc) (append_assoc (fixed_digits k (n / 10)) (digit (n % 10)) s)
    ∙ parse_from-fixed_digits k (n / 10) acc (text_append (digit (n % 10)) s)
    ∙ parse_from-digit (digits_value k (n / 10) acc) (n % 10) s (omega arith)

digits_value-exact : (k n : ℕ) → n < ten_to k → digits_value k n 0 ≡ n
digits_value-exact zero n h = omega arith
digits_value-exact (suc k) n h = omega (arith, digits_value-exact k (n / 10) (omega arith))

-- An index of at most twenty digits, as every int64 is, is read back from its key.
pub parse_int-index_key : (n : ℕ) → n < 10 ^ 20 → parse_int (index_key n) ≡ n
unfolding parse_int parse_from
parse_int-index_key n h =
    ap (λ s. or_zero (parse_from 0 s)) (sym (append-nil (index_key n)))
    ∙ ap or_zero (parse_from-fixed_digits 20 n 0 "")
    ∙ digits_value-exact 20 n h

append_injective : (p a b : String) → text_append p a ≡ text_append p b → a ≡ b
append_injective p a b e =
    ground (arith, ap (strip_prefix p) e, strip_prefix-append p a, strip_prefix-append p b)

pub append-same : (p a b : String) → str_eq (text_append p a) (text_append p b) ≡ str_eq a b
append-same p a b = ground (
  arith,
  eq_iff (text_append p a) (text_append p b),
  eq_iff a b,
  append_injective p a b,
  ap (text_append p) {x = a} {y = b},
)

pub index_key-same :
    (i j : ℕ) → i < 10 ^ 20 → j < 10 ^ 20 → str_eq (index_key i) (index_key j) ≡ (i == j)
index_key-same i j hi hj =
    ground (
      arith,
      eq_iff (index_key i) (index_key j),
      parse_int-index_key i hi,
      parse_int-index_key j hj,
    )
