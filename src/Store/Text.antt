-- ===== src/Store/Text.antt =====
-- core/RaftStorage.go: the texts of its keys.
use Prim.Native.Char.{Char, code}
use Prim.Native.String.{String, [], ◌∷◌, ◌++◌ as text_append}
use majula.Prelude.{
  ℕ, zero, suc, ◌+◌, ◌-◌, ◌*◌, ◌/◌, ◌%◌, Option, none, some, Bool, false, if◌then◌else◌, leb, ◌==◌,
}
use majula.Mesh.Receive.{digit}

-- %020d
unfoldable pub fixed_digits : ℕ → ℕ → String
fixed_digits zero n = ""
fixed_digits (suc k) n = text_append (fixed_digits k (n / 10)) (digit (n % 10))

abbrev pub index_key : ℕ → String
index_key n = fixed_digits 20 n

unfoldable pub is_digit : Char → Bool
is_digit c = if leb 48 (code c) then leb (code c) 57 else false

-- ParseInt for digits only; the caller takes 0 where it fails.
unfoldable pub parse_from : ℕ → String → Option ℕ
parse_from acc [] = some acc
parse_from acc (c ∷ s) =
    let rest = parse_from (acc * 10 + (code c - 48)) s in if is_digit c then rest else none

abbrev pub or_zero : Option ℕ → ℕ
or_zero none = 0
or_zero (some n) = n

unfoldable pub parse_int : String → ℕ
parse_int s = or_zero (parse_from 0 s)

-- strings.HasPrefix and strings.TrimPrefix
unfoldable pub strip_prefix : String → String → Option String
strip_prefix [] s = some s
strip_prefix (c ∷ p) [] = none
strip_prefix (c ∷ p) (d ∷ s) =
    let rest = strip_prefix p s in if code c == code d then rest else none
