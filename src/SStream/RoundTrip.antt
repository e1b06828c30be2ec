-- ===== src/SStream/RoundTrip.antt =====
-- An integer that u_sstream.c prints is the one it reads back.
use gcfflashero.Base
use gcfflashero.Base.{
  ℕ, zero, suc, ◌+◌, ◌-◌, ◌*◌, ◌/◌, ◌%◌, ◌^◌, ◌≤◌, ◌<◌, ◌≡◌, refl, sym, ap, ap₂, ◌∙◌, arith, Bool,
  Bool-cases, inl, inr, true, false, List, [], ◌∷◌, ◌++◌, append-nil, ◌==◌, length, length-append,
  if◌then◌else◌, if_both, ℤ, neg, u32, take, drop, take-drop_of, leb, ltb, set, length-set,
}
use gcfflashero.SStream.{SStream, ok, get_long, strtol, Strtol, is_ok, copy_str, room}
use gcfflashero.SStream.Number.{AllDigits, decimal, strtol-decimal, strtol-negative}
use gcfflashero.SStream.Print.{low_digits, reverse, put_long, put_digits, put_sign, magnitude}
use gcfflashero.SStream.Decimal.{
  decimal-low_digits, low_digits-AllDigits, length-low_digits, length-reverse, low_digits_positive,
}
use gcfflashero.SStream.Copied.{copy_str-Copied}

-- The text of a number.
abbrev pub number_text : ℤ → List ℕ
number_text (Base.ℤ.pos n) = reverse (low_digits 20 n)
number_text (Base.ℤ.negsuc n) = b'-' ∷ reverse (low_digits 20 (suc n))

-- The numbers of a long.
abbrev pub IsLong : ℤ → Type 0
IsLong (Base.ℤ.pos n) = n < 2 ^ 63
IsLong (Base.ℤ.negsuc n) = n < 2 ^ 63

put_digits-room :
    (ss : SStream) (buf : List ℕ)
    → ss.pos + length buf < ss.len
    → ss.len < 2 ^ 32
    → put_digits ss buf ≡ record ss {
      str = copy_str ss.str ss.pos (reverse buf);
      pos = ss.pos + length (reverse buf);
    }
put_digits-room ss buf space small =
    let enough : ltb (room ss) (length buf + 1) ≡ false = ground arith in
    rw enough (
      ap (λ n. record ss { str = copy_str ss.str ss.pos (reverse buf); pos = ss.pos + n })
        (sym (length-reverse buf)))

abbrev printed : SStream → ℤ → SStream
printed ss num = record ss {
  str = copy_str ss.str ss.pos (number_text num);
  pos = ss.pos + length (number_text num);
}

-- A number is printed as its text.
put_long-text :
    (ss : SStream) (num : ℤ)
    → ss.status ≡ ok
    → ss.pos + 21 < ss.len
    → ss.len < 2 ^ 32
    → put_long ss num ≡ printed ss num
unfolding put_long copy_str
put_long-text ss (Base.ℤ.pos n) fine space small =
    let size = length-low_digits 20 n in
    ap (λ s. if is_ok s then put_digits ss (low_digits 20 n) else ss) fine
    ∙ put_digits-room ss (low_digits 20 n) (omega arith) small
put_long-text ss (Base.ℤ.negsuc n) fine space small =
    let size = length-low_digits 20 (suc n) in
    let signed = put_sign ss (Base.ℤ.negsuc n) in
    let buf = low_digits 20 (suc n) in
    let next : u32 (ss.pos + 1) ≡ ss.pos + 1 = omega arith in
    let end : ss.pos + 1 + length (reverse buf) ≡ ss.pos + suc (length (reverse buf)) =
      omega arith in
    ap (λ s. if is_ok s then put_digits signed buf else ss) fine
    ∙ put_digits-room signed buf (omega arith) small
    ∙ ap₂ (λ p e. record ss { str = copy_str (set ss.str ss.pos b'-') p (reverse buf); pos = e })
        next (ap (λ p. p + length (reverse buf)) next ∙ end)

abbrev is_negative : ℤ → Bool
is_negative (Base.ℤ.pos n) = false
is_negative (Base.ℤ.negsuc n) = true

abbrev read_back : ℤ → Strtol
read_back num = record {
  negative = is_negative num;
  result = magnitude num;
  used = length (number_text num);
  err = record { invalid = false; overflow = false; underflow = false };
}

abbrev clean : Bool → ℕ → List ℕ → Strtol
clean negative value text = record {
  negative = negative;
  result = value;
  used = length text;
  err = record { invalid = false; overflow = false; underflow = false };
}

strtol_digits :
    (text : List ℕ) (v : ℕ)
    → AllDigits text
    → 0 < length text
    → decimal 0 text ≡ v
    → v < 2 ^ 63
    → strtol text ≡ clean false v text
strtol_digits [] v all some spells small = absurd (omega arith)
strtol_digits (c ∷ cs) v all some spells small =
    ap strtol (sym (append-nil (c ∷ cs)))
    ∙ strtol-decimal c cs [] all tt (omega arith)
    ∙ ap (λ n. clean false n (c ∷ cs)) spells

strtol_minus :
    (text : List ℕ) (v : ℕ)
    → AllDigits text
    → 0 < length text
    → decimal 0 text ≡ v
    → v ≤ 2 ^ 63
    → strtol (b'-' ∷ text) ≡ clean true v (b'-' ∷ text)
strtol_minus [] v all some spells small = absurd (omega arith)
strtol_minus (c ∷ cs) v all some spells small =
    ap (λ t. strtol (b'-' ∷ t)) (sym (append-nil (c ∷ cs)))
    ∙ strtol-negative c cs [] all tt (omega arith)
    ∙ ap (λ n. clean true n (b'-' ∷ c ∷ cs)) spells

-- U_strtol reads the text of a number as that number.
strtol-number_text : (num : ℤ) → IsLong num → strtol (number_text num) ≡ read_back num
strtol-number_text (Base.ℤ.pos n) small =
    let long = length-reverse (low_digits 20 n) in
    let some = low_digits_positive 19 n in
    strtol_digits (reverse (low_digits 20 n)) n (low_digits-AllDigits 20 n) (omega arith)
      (decimal-low_digits 20 n (omega arith)) small
strtol-number_text (Base.ℤ.negsuc n) small =
    let long = length-reverse (low_digits 20 (suc n)) in
    let some = low_digits_positive 19 (suc n) in
    strtol_minus (reverse (low_digits 20 (suc n))) (suc n) (low_digits-AllDigits 20 (suc n))
      (omega arith) (decimal-low_digits 20 (suc n) (omega arith)) (omega arith)

length-number_text : (num : ℤ) → (0 < length (number_text num)) × (length (number_text num) ≤ 21)
length-number_text (Base.ℤ.pos n) =
    let long = length-reverse (low_digits 20 n) in
    let size = length-low_digits 20 n in
    let some = low_digits_positive 19 n in (omega arith, omega arith)
length-number_text (Base.ℤ.negsuc n) =
    let long = length-reverse (low_digits 20 (suc n)) in
    let size = length-low_digits 20 (suc n) in (omega arith, omega arith)

-- The stream that holds what was printed, from where it begins.
abbrev pub reread : SStream → SStream → SStream
reread ss ss' = record ss' { pos = ss.pos; len = ss'.pos }

signed :
    (num : ℤ) → (if is_negative num then neg (magnitude num) else Base.ℤ.pos (magnitude num)) ≡ num
signed (Base.ℤ.pos n) = refl
signed (Base.ℤ.negsuc n) = refl

read_number :
    (s : SStream) (num : ℤ)
    → strtol (take (s.len - s.pos) (drop s.pos s.str)) ≡ read_back num
    → s.pos < s.len
    → s.len < 2 ^ 32
    → s.pos + length (number_text num) ≡ s.len
    → get_long s ≡ (record s { pos = s.len }, num)
unfolding get_long
read_number s num reads inside small end =
    let here : ltb s.pos s.len ≡ true = ground arith in
    let next : u32 (s.pos + length (number_text num)) ≡ s.len = omega arith in
    let fits : leb s.len s.len ≡ true = ground arith in
    rw (here, reads, next, fits) (ap (λ v. (record s { pos = s.len }, v)) (signed num))

-- Any long that U_sstream_put_long prints into a sound stream with room for 22 bytes is what
-- U_sstream_get_long reads from there, without an error, and it reads all that was printed.
pub get_long-put_long :
    (ss : SStream) (num : ℤ)
    → ss.status ≡ ok
    → length ss.str ≡ ss.len
    → ss.len < 2 ^ 32
    → ss.pos + 21 < ss.len
    → IsLong num
    → (let ss' = put_long ss num in
        get_long (reread ss ss') ≡ (record (reread ss ss') { pos = ss'.pos }, num))
get_long-put_long ss num fine sized small space fits =
    let ran = put_long-text ss num fine space small in
    let (some, size) = length-number_text num in
    let L = length (number_text num) in
    let copied = copy_str-Copied (number_text num) ss.str ss.pos (omega arith) in
    let there : ss.pos + L - ss.pos ≡ L = omega arith in
    let text =
      ap (λ n. take n (drop ss.pos (printed ss num).str)) there
      ∙ take-drop_of L ss.pos (printed ss num).str (number_text num) ss.str copied.prefix
          (omega arith) in
    ap (λ s. get_long (reread ss s)) ran
    ∙ read_number (reread ss (printed ss num)) num (ap strtol text ∙ strtol-number_text num fits)
        (omega arith) (omega arith) refl
    ∙ ap (λ s. (record (reread ss s) { pos = s.pos }, num)) (sym ran)
