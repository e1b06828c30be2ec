-- ===== src/SStream/Number.antt =====
-- U_strtol (u_sstream.c) reads a decimal number exactly.
use gcfflashero.Base.{
  ℕ, suc, ◌+◌, ◌-◌, ◌*◌, ◌^◌, ◌≤◌, ◌<◌, ◌≡◌, ap, ap₂, ◌∙◌, arith, Bool, true, false, ◌||◌, List, [],
  ◌∷◌, ◌++◌, ltb, ◌==◌, length, u64,
}
use gcfflashero.SStream.{Digits, Strtol, is_digit, digit_loop, strtol}

abbrev pub AllDigits : List ℕ → Type 0
AllDigits [] = Unit
AllDigits (c ∷ cs) = (is_digit c ≡ true) × AllDigits cs

-- The text does not go on with a digit.
abbrev pub IsEnd : List ℕ → Type 0
IsEnd [] = Unit
IsEnd (c ∷ cs) = is_digit c ≡ false

-- The number that digits spell behind `v`, without a bound.
abbrev pub decimal : ℕ → List ℕ → ℕ
decimal v [] = v
decimal v (c ∷ cs) = decimal (v * 10 + (c - b'0')) cs

decimal_le : (v : ℕ) (cs : List ℕ) → v ≤ decimal v cs
decimal_le v [] = omega arith
decimal_le v (c ∷ cs) = omega (arith, decimal_le (v * 10 + (c - b'0')) cs)

abbrev read : ℕ → ℕ → Digits
read v n = record { result = v; count = n; wrapped = false }

digit_loop-decimal :
    (cs rest : List ℕ) (v n : ℕ)
    → AllDigits cs
    → IsEnd rest
    → decimal v cs ≤ 2 ^ 63
    → digit_loop (read v n) (cs ++ rest) ≡ read (decimal v cs) (n + length cs)
unfolding digit_loop
digit_loop-decimal [] [] v n all end small = ap (read v) (omega arith)
digit_loop-decimal [] (c ∷ rest) v n all end small = rw end (ap (read v) (omega arith))
digit_loop-decimal (c ∷ cs) rest v n all end small =
    let below = decimal_le (v * 10 + (c - b'0')) cs in
    let sum : u64 (u64 (v * 10) + (c - b'0')) ≡ v * 10 + (c - b'0') = omega (arith, below, small) in
    let kept : ltb (v * 10 + (c - b'0')) v ≡ false = ground arith in
    rw (all.0, sum, kept)
      (digit_loop-decimal cs rest (v * 10 + (c - b'0')) (suc n) all.1 end small
        ∙ ap (read (decimal v (c ∷ cs))) (omega arith))

abbrev number_read : Bool → ℕ → ℕ → Bool → Strtol
number_read negative value used invalid = record {
  negative = negative;
  result = value;
  used = used;
  err = record { invalid = invalid; overflow = false; underflow = false };
}

-- U_strtol reads decimal digits that spell a number below 2 ^ 63 as that number, without an error,
-- and stops at the first character that is no digit.
pub strtol-decimal :
    (c : ℕ) (cs rest : List ℕ)
    → AllDigits (c ∷ cs)
    → IsEnd rest
    → decimal 0 (c ∷ cs) < 2 ^ 63
    → strtol (c ∷ cs ++ rest) ≡ record {
      negative = false;
      result = decimal 0 (c ∷ cs);
      used = length (c ∷ cs);
      err = record { invalid = false; overflow = false; underflow = false };
    }
unfolding strtol
strtol-decimal c cs rest all end small =
    let blank : (c == b' ' || c == b'\t') ≡ false = ground (arith, all.0) in
    let dash : (c == b'-') ≡ false = ground (arith, all.0) in
    let unskipped : length (c ∷ cs ++ rest) - length (c ∷ cs ++ rest) ≡ 0 = omega arith in
    let count : 0 + (0 + length (c ∷ cs)) ≡ length (c ∷ cs) = omega arith in
    let some_digit : (0 + length (c ∷ cs) == 0) ≡ false = ground arith in
    let fits : ltb (2 ^ 63 - 1) (decimal 0 (c ∷ cs)) ≡ false = ground (arith, small) in
    rw
      (
        strtol,
        blank,
        dash,
        unskipped,
        digit_loop-decimal (c ∷ cs) rest 0 0 all end (omega arith),
        fits,
      )
      (ap₂ (number_read false (decimal 0 (c ∷ cs))) count some_digit)

-- With a sign before them, the digits may spell a number up to 2 ^ 63.
pub strtol-negative :
    (c : ℕ) (cs rest : List ℕ)
    → AllDigits (c ∷ cs)
    → IsEnd rest
    → decimal 0 (c ∷ cs) ≤ 2 ^ 63
    → strtol (b'-' ∷ c ∷ cs ++ rest) ≡ record {
      negative = true;
      result = decimal 0 (c ∷ cs);
      used = suc (length (c ∷ cs));
      err = record { invalid = false; overflow = false; underflow = false };
    }
unfolding strtol
strtol-negative c cs rest all end small =
    let unskipped : length (b'-' ∷ c ∷ cs ++ rest) - length (b'-' ∷ c ∷ cs ++ rest) ≡ 0 =
      omega arith in
    let count : 1 + (0 + length (c ∷ cs)) ≡ suc (length (c ∷ cs)) = omega arith in
    let some_digit : (0 + length (c ∷ cs) == 0) ≡ false = ground arith in
    let fits : ltb (2 ^ 63) (decimal 0 (c ∷ cs)) ≡ false = ground (arith, small) in
    rw (unskipped, digit_loop-decimal (c ∷ cs) rest 0 0 all end small, fits)
      (ap₂ (number_read true (decimal 0 (c ∷ cs))) count some_digit)
