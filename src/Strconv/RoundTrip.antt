-- ===== src/Strconv/RoundTrip.antt =====
-- Reading back a printed number (event IDs of internal/stream/manager.go).
use kariz.Prelude.{
  ℕ, zero, suc, ◌+◌, ◌-◌, ◌*◌, ◌/◌, ◌%◌, ◌^◌, ◌≤◌, ◌<◌, ◌≡◌, ◌∙◌, refl, [], ◌∷◌, Bytes, arith,
  length, ◌==◌, Bool-cases, inl, inr, pos,
}
use kariz.Strconv.{emit, itoa, scan, parsed, atoi, number}

length-emit : (fuel n : ℕ) (out : Bytes) → length out ≤ length (emit fuel n out)
unfolding emit
length-emit zero n out = omega arith
length-emit (suc fuel) n out = ground (arith, length-emit fuel (n / 10) ((b'0' + n % 10) ∷ out))

-- The text does not begin with a sign.
abbrev IsUnsigned : Bytes → Type 0
IsUnsigned [] = Unit
IsUnsigned (c ∷ s) = b'-' < c

emit-IsUnsigned : (fuel n : ℕ) (out : Bytes) → IsUnsigned out → IsUnsigned (emit fuel n out)
unfolding emit
emit-IsUnsigned zero n out h = h
emit-IsUnsigned (suc fuel) n out h =
    let ih = emit-IsUnsigned fuel (n / 10) ((b'0' + n % 10) ∷ out) (omega arith) in
    elim (Bool-cases (n == 0)) [ inl e ↦ rw e h | inr e ↦ rw e ih ]

scan_digit : (n : ℕ) (out : Bytes) → n < 2 ^ 64 → scan ((b'0' + n % 10) ∷ out) (n / 10) ≡ scan out n
unfolding scan
scan_digit n out h =
    let e : n / 10 * 10 + ((b'0' + n % 10) - b'0') ≡ n = omega arith in rw e (ground arith)

scan-emit :
    (fuel n : ℕ) (out : Bytes) → n ≤ fuel → n < 2 ^ 64 → scan (emit fuel n out) 0 ≡ scan out n
unfolding emit
scan-emit zero n out le lt = let e : n ≡ 0 = omega arith in rw e
scan-emit (suc fuel) n out le lt = elim (Bool-cases (n == 0)) [
  | inl e ↦ ground arith
  | inr e ↦ rw e (
      scan-emit fuel (n / 10) ((b'0' + n % 10) ∷ out) (ground arith) (omega arith)
      ∙ scan_digit n out lt)
]

atoi_unsigned :
    (s : Bytes)
    → IsUnsigned s
    → 0 < length s
    → {n : ℕ} → scan s 0 ≡ number n
    → n < 2 ^ 63
    → atoi s ≡ parsed (pos n)
unfolding atoi
atoi_unsigned [] u h e lt = elim h [ ]
atoi_unsigned (c ∷ s) u h e lt = ground arith

long : (n : ℕ) → 0 < n → 0 < length (emit n n [])
unfolding emit
long zero h = elim h [ ]
long (suc n) h = ground (arith, length-emit n (suc n / 10) ((b'0' + suc n % 10) ∷ []))

-- An ID that fits Go's `int` is read back from its decimal text.
pub atoi-itoa : (n : ℕ) → n < 2 ^ 63 → atoi (itoa n) ≡ parsed (pos n)
unfolding itoa
atoi-itoa n h = elim (Bool-cases (n == 0)) [
  | inl e ↦ let z : n ≡ 0 = ground arith in rw z (unfold atoi in refl)
  | inr e ↦ rw e (
      atoi_unsigned (emit n n []) (emit-IsUnsigned n n [] tt) (long n (ground arith))
        (scan-emit n n [] (omega arith) (omega arith) ∙ (unfold scan in refl)) h)
]
