-- ===== src/SStream/Decimal.antt =====
-- The digits that the output of integers in u_sstream.c finds, and the number they spell.
use gcfflashero.Base.{
  ℕ, zero, suc, ◌+◌, ◌-◌, ◌*◌, ◌/◌, ◌%◌, ◌^◌, ◌≤◌, ◌<◌, ◌≡◌, refl, ◌∙◌, arith, Bool-cases, inl, inr,
  true, List, [], ◌∷◌, ◌++◌, ◌==◌, length, length-append, if◌then◌else◌, if_both,
}
use native.Mathlib.Nat.{pow-suc}
use gcfflashero.SStream.{is_digit}
use gcfflashero.SStream.Number.{AllDigits, decimal}
use gcfflashero.SStream.Print.{low_digits, reverse}

decimal-snoc :
    (v : ℕ) (cs : List ℕ) (c : ℕ) → decimal v (cs ++ c ∷ []) ≡ decimal v cs * 10 + (c - b'0')
decimal-snoc v [] c = refl
decimal-snoc v (d ∷ cs) c = decimal-snoc (v * 10 + (d - b'0')) cs c

AllDigits-snoc : (cs : List ℕ) (c : ℕ) → AllDigits cs → is_digit c ≡ true → AllDigits (cs ++ c ∷ [])
AllDigits-snoc [] c all last = (last, tt)
AllDigits-snoc (d ∷ cs) c all last = (all.0, AllDigits-snoc cs c all.1 last)

pub length-reverse : (cs : List ℕ) → length (reverse cs) ≡ length cs
length-reverse [] = refl
length-reverse (c ∷ cs) = omega (arith, length-append {0} (reverse cs) (c ∷ []), length-reverse cs)

-- Enough rounds find all digits.
pub decimal-low_digits :
    (rounds n : ℕ) → n < 10 ^ rounds → decimal 0 (reverse (low_digits rounds n)) ≡ n
unfolding low_digits
decimal-low_digits zero n h = omega arith
decimal-low_digits (suc rounds) n h =
    let rest = low_digits rounds (n / 10) in
    let whole = decimal-snoc 0 (reverse (if n / 10 == 0 then [] else rest)) (b'0' + n % 10) in
    let shorter : n / 10 < 10 ^ rounds = omega (arith, pow-suc 10 rounds) in
    elim (Bool-cases (n / 10 == 0)) [
      | inl e ↦ rw e (ground arith)
      | inr e ↦ rw e (
          decimal-snoc 0 (reverse rest) (b'0' + n % 10)
          ∙ omega (arith, decimal-low_digits rounds (n / 10) shorter))
    ]

pub low_digits-AllDigits : (rounds n : ℕ) → AllDigits (reverse (low_digits rounds n))
unfolding low_digits
low_digits-AllDigits zero n = tt
low_digits-AllDigits (suc rounds) n =
    let rest = low_digits rounds (n / 10) in
    AllDigits-snoc (reverse (if n / 10 == 0 then [] else rest)) (b'0' + n % 10)
      (if_both (λ t. AllDigits (reverse t)) (n / 10 == 0) [] rest tt
        (low_digits-AllDigits rounds (n / 10)))
      (ground arith)

pub length-low_digits : (rounds n : ℕ) → length (low_digits rounds n) ≤ rounds
unfolding low_digits
length-low_digits zero n = omega arith
length-low_digits (suc rounds) n =
    let rest = low_digits rounds (n / 10) in
    if_both (λ (t : List ℕ). suc (length t) ≤ suc rounds) (n / 10 == 0) [] rest (omega arith)
      (omega (arith, length-low_digits rounds (n / 10)))

pub low_digits_positive : (rounds n : ℕ) → 0 < length (low_digits (suc rounds) n)
unfolding low_digits
low_digits_positive rounds n = omega arith
