-- ===== src/GcfFile/Version.antt =====
-- The firmware version that GCF_ParseFile (gcf.c) takes from the file name.
use gcfflashero.Base.{
  ℕ, ◌+◌, ◌*◌, ◌%◌, ◌≤◌, ◌<◌, ◌^◌, ◌≡◌, ◌⊎◌, refl, sym, ◌∙◌, ap, List, [], ◌∷◌, ◌++◌, some, none,
  arith, false, ◌&&◌, ◌==◌, u64, Option-cases, inl, inr,
}
use gcfflashero.Base.Bits.{shift-bit_or, bit_and-mask}
use gcfflashero.GcfFile.{hex_digit, push_digit, parse_digits, parse_version}

-- `c` is the hexadecimal digit of the value `d`: 0 to 9, a to f, or A to F.
abbrev pub IsDigit : ℕ → ℕ → Type 0
IsDigit c d =
    ((c ≡ b'0' + d) × (d < 10))
    ⊎ ((c + 10 ≡ b'a' + d) × (10 ≤ d) × (d < 16))
    ⊎ ((c + 10 ≡ b'A' + d) × (10 ≤ d) × (d < 16))

-- The text has digits of these values.
abbrev pub Spells : List ℕ → List ℕ → Type 0
Spells [] [] = Unit
Spells (c ∷ cs) (d ∷ ds) = IsDigit c d × Spells cs ds
Spells _ _ = ⊥

-- The number with these digits behind `v`, the highest first, without a bound.
abbrev pub hex_value : ℕ → List ℕ → ℕ
hex_value v [] = v
hex_value v (d ∷ ds) = hex_value (v * 16 + d) ds

-- The text does not go on with a digit.
abbrev pub IsEnd : List ℕ → Type 0
IsEnd [] = Unit
IsEnd (c ∷ cs) = (d : ℕ) → ¬ IsDigit c d

-- "0x" does not stand in the text.
abbrev pub NoMark : List ℕ → Type 0
NoMark [] = Unit
NoMark (c ∷ []) = Unit
NoMark (c ∷ d ∷ cs) = ((c == b'0' && d == b'x') ≡ false) × NoMark (d ∷ cs)

IsDigit-lt : (c d : ℕ) → IsDigit c d → d < 16
IsDigit-lt c d h = ground arith

hex_digit-IsDigit : (c d : ℕ) → IsDigit c d → hex_digit c ≡ some d
unfolding hex_digit
hex_digit-IsDigit c d h = ground arith

hex_digit-some : (c d : ℕ) → hex_digit c ≡ some d → IsDigit c d
unfolding hex_digit
hex_digit-some c d e = ground arith

hex_digit-none : (c : ℕ) → ((d : ℕ) → ¬ IsDigit c d) → hex_digit c ≡ none
hex_digit-none c no_digit = elim (Option-cases (hex_digit c)) [
  | inl e ↦ e
  | inr (d, e) ↦ absurd (no_digit d (hex_digit-some c d e))
]

push_digit_lem : (v d : ℕ) → v < 2 ^ 32 → d < 16 → push_digit v d ≡ (v * 16 + d) % 2 ^ 32
push_digit_lem v d hv hd =
    let fits : u64 (v * 2 ^ 4) ≡ v * 2 ^ 4 = omega arith in
    rw (fits, shift-bit_or 4 v d hd, bit_and-mask 32 (v * 2 ^ 4 + d))

hex_value_mod : (v : ℕ) (ds : List ℕ) → hex_value (v % 2 ^ 32) ds % 2 ^ 32 ≡ hex_value v ds % 2 ^ 32
hex_value_mod v [] = omega arith
hex_value_mod v (d ∷ ds) =
    let low : (v % 2 ^ 32 * 16 + d) % 2 ^ 32 ≡ (v * 16 + d) % 2 ^ 32 = omega arith in
    sym (hex_value_mod (v % 2 ^ 32 * 16 + d) ds)
    ∙ ap (λ t. hex_value t ds % 2 ^ 32) low
    ∙ hex_value_mod (v * 16 + d) ds

parse_digits-end : (v : ℕ) (rest : List ℕ) → IsEnd rest → parse_digits v rest ≡ v
unfolding parse_digits
parse_digits-end v [] e = refl
parse_digits-end v (c ∷ cs) e = rw (parse_digits, hex_digit-none c e)

parse_digits_step :
    (v c d : ℕ) (rest : List ℕ)
    → hex_digit c ≡ some d
    → parse_digits v (c ∷ rest) ≡ parse_digits (push_digit v d) rest
unfolding parse_digits
parse_digits_step v c d rest e = rw (parse_digits, e)

parse_digits_lem :
    (v : ℕ) (cs ds rest : List ℕ)
    → v < 2 ^ 32
    → Spells cs ds
    → IsEnd rest
    → parse_digits v (cs ++ rest) ≡ hex_value v ds % 2 ^ 32
parse_digits_lem v [] [] rest hv spelled end = parse_digits-end v rest end ∙ omega arith
parse_digits_lem v [] (d ∷ ds) rest hv spelled end = absurd spelled
parse_digits_lem v (c ∷ cs) [] rest hv spelled end = absurd spelled
parse_digits_lem v (c ∷ cs) (d ∷ ds) rest hv spelled end =
    parse_digits_step v c d (cs ++ rest) (hex_digit-IsDigit c d spelled.0)
    ∙ rw (push_digit_lem v d hv (IsDigit-lt c d spelled.0)) (
        parse_digits_lem ((v * 16 + d) % 2 ^ 32) cs ds rest (omega arith) spelled.1 end
        ∙ hex_value_mod (v * 16 + d) ds)

-- The hexadecimal digits behind the first "0x" of the file name, in small or capital letters, make
-- up the version, the highest first, modulo 2 ^ 32; the first character that is no hexadecimal
-- digit ends them.
pub parse_version_lem :
    (before digits values rest : List ℕ)
    → NoMark before
    → Spells digits values
    → IsEnd rest
    → parse_version (before ++ (b'0' ∷ b'x' ∷ (digits ++ rest))) ≡ hex_value 0 values % 2 ^ 32
unfolding parse_version
parse_version_lem [] digits values rest clear spelled end =
    parse_digits_lem 0 digits values rest (omega arith) spelled end
parse_version_lem (c ∷ []) digits values rest clear spelled end =
    ground (arith, parse_version_lem [] digits values rest tt spelled end)
parse_version_lem (c ∷ d ∷ before) digits values rest clear spelled end =
    rw clear.0 (parse_version_lem (d ∷ before) digits values rest clear.1 spelled end)

-- Without "0x" the version is 0.
pub parse_version-NoMark : (name : List ℕ) → NoMark name → parse_version name ≡ 0
unfolding parse_version
parse_version-NoMark [] clear = refl
parse_version-NoMark (c ∷ []) clear = refl
parse_version-NoMark (c ∷ d ∷ name) clear = rw clear.0 (parse_version-NoMark (d ∷ name) clear.1)
