-- ===== src/Strconv.antt =====
-- What internal/stream/manager.go uses of Go's `fmt` and `strconv`: event IDs are printed by
-- `fmt.Sprintf("%d", n)` and read back by `strconv.Atoi`, which also reads the ID that a client sends.
pub mod RoundTrip
use kariz.Prelude.{
  ℕ, zero, suc, ◌+◌, ◌-◌, ◌*◌, ◌/◌, ◌%◌, ◌^◌, ◌≡◌, refl, Bool, true, false, ◌||◌, List, [], ◌∷◌,
  Bytes, codes, ltb, ◌==◌, if◌then◌else◌, ℤ, pos, negsuc,
}

-- The digits of `n`, most significant first, in front of `out`. Each round divides `n` by ten, so
-- fuel `n` is enough.
emit : ℕ → ℕ → Bytes → Bytes
emit zero n out = out
emit (suc fuel) n out =
    let rest = emit fuel (n / 10) ((b'0' + n % 10) ∷ out) in if n == 0 then out else rest

-- `fmt.Sprintf("%d", n)` of an int that is not negative.
unfoldable pub itoa : ℕ → Bytes
unfolding emit
itoa n = if n == 0 then b'0' ∷ [] else emit n n []

-- The number with its error, which a caller may ignore: 0 beside a syntax error, the nearest
-- int beside a range error.
pub data Atoi : Type 0 where
  parsed : ℤ → Atoi
  syntax_error : Atoi
  range_error : ℤ → Atoi

abbrev pub atoi_value : Atoi → ℤ
atoi_value (parsed z) = z
atoi_value syntax_error = pos 0
atoi_value (range_error z) = z

pub data Digits : Type 0 where
  number : ℕ → Digits
  bad_digit : Digits
  overflow : Digits

-- `strconv.ParseUint` in base ten, after its first byte is known to be there.
scan : Bytes → ℕ → Digits
scan [] n = number n
scan (c ∷ s) n =
    let rest = scan s (n * 10 + (c - b'0')) in
    if ltb c b'0' || ltb b'9' c
    then bad_digit
    else if ltb (2 ^ 64 - 1) (n * 10 + (c - b'0'))
    then overflow
    else rest

parse_uint : Bytes → Digits
parse_uint [] = bad_digit
parse_uint (c ∷ s) = scan (c ∷ s) 0

-- The range of a 64-bit `int`.
signed : Bool → Digits → Atoi
signed negative bad_digit = syntax_error
signed false overflow = range_error (pos (2 ^ 63 - 1))
signed true overflow = range_error (negsuc (2 ^ 63 - 1))
signed false (number n) = if ltb n (2 ^ 63) then parsed (pos n) else range_error (pos (2 ^ 63 - 1))
signed true (number zero) = parsed (pos 0)
signed true (number (suc n)) =
    if ltb n (2 ^ 63) then parsed (negsuc n) else range_error (negsuc (2 ^ 63 - 1))

-- `strconv.Atoi`: an optional sign, then digits.
unfoldable pub atoi : Bytes → Atoi
unfolding scan signed parse_uint
atoi [] = syntax_error
atoi (c ∷ s) =
    if c == b'-'
    then signed true (parse_uint s)
    else if c == b'+'
    then signed false (parse_uint s)
    else signed false (parse_uint (c ∷ s))

itoa_max : itoa (2 ^ 63 - 1) ≡ codes "9223372036854775807"
unfolding itoa
itoa_max = refl

atoi_samples :
    (atoi (codes "-12") ≡ parsed (negsuc 11))
    × (atoi (codes "x1") ≡ syntax_error)
    × (atoi (codes "9223372036854775808") ≡ range_error (pos (2 ^ 63 - 1)))
unfolding atoi
atoi_samples = (refl, refl, refl)
