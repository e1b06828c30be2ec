-- ===== src/SStream.antt =====
-- u_sstream.c: building and parsing of strings in a buffer, without floating point numbers.
-- A buffer is a list of bytes; a C string is the list of its bytes without the NUL.
pub mod Find
pub mod Number
pub mod Print
pub mod Copied
pub mod RoundTrip
pub mod Hex
pub mod Decimal
mod Tests
use gcfflashero.Base
use gcfflashero.Base.{
  ℕ, zero, suc, ◌+◌, ◌-◌, ◌*◌, ◌%◌, ◌^◌, Bool, true, false, not, ◌&&◌, ◌||◌, Option, none, some,
  List, [], ◌∷◌, ltb, leb, ◌==◌, if◌then◌else◌, length, get_or, set, take, drop, u32, u64, ℤ, neg,
}

-- U_sstream_status
pub data Status : Type 0 where
  ok err_range err_invalid err_no_space : Status

-- U_SStream
pub record SStream : Type 0 where
  pub str : List ℕ
  pub pos : ℕ
  pub len : ℕ
  pub status : Status

-- U_sstream_init; `none` is a null pointer.
unfoldable pub init : Option (List ℕ) → ℕ → SStream
init none size = record { str = []; pos = 0; len = size; status = err_invalid }
init (some mem) size = record {
  str = mem;
  pos = 0;
  len = size;
  status = if size == 0 then err_invalid else ok;
}

abbrev pub is_ok : Status → Bool
is_ok ok = true
is_ok _ = false

unfoldable pub remaining : SStream → ℕ
remaining ss = if leb ss.pos ss.len then ss.len - ss.pos else 0

pub at_end : SStream → Bool
at_end ss = if leb ss.pos ss.len then ss.len - ss.pos == 0 else true

unfoldable pub peek_char : SStream → ℕ
peek_char ss = if ltb ss.pos ss.len then get_or ss.str ss.pos 0 else 0

pub seek : SStream → ℕ → SStream
seek ss pos = if leb pos ss.len then record ss { pos = pos } else ss

-- The subtraction `ss->len - ss->pos` of unsigned numbers.
abbrev pub room : SStream → ℕ
room ss = u32 (ss.len + 2 ^ 32 - ss.pos)

abbrev is_whitespace : ℕ → Bool
is_whitespace ch = ch == b' ' || ch == b'\t' || ch == b'\n' || ch == b'\r'

-- The loop of U_sstream_skip_whitespace; its fuel is the rest of the stream.
abbrev skip_loop : ℕ → SStream → SStream
skip_loop zero ss = ss
skip_loop (suc fuel) ss =
    let rest = skip_loop fuel (record ss { pos = ss.pos + 1 }) in
    if ltb ss.pos ss.len && is_whitespace (get_or ss.str ss.pos 0) then rest else ss

pub skip_whitespace : SStream → SStream
skip_whitespace ss = skip_loop (ss.len - ss.pos) ss

-- The inner loop of U_sstream_find, from `match = 0` to the `break`.
unfoldable pub match_count : List ℕ → ℕ → List ℕ → ℕ
match_count mem pos [] = 0
match_count mem pos (c ∷ cs) =
    let more = match_count mem (pos + 1) cs in if get_or mem pos 0 == c then suc more else 0

unfoldable pub starts_with : SStream → List ℕ → Bool
starts_with ss needle =
    leb (length needle) (room ss) && match_count ss.str ss.pos needle == length needle

-- The outer loop; the fuel is the number of positions left.
unfoldable pub find_loop : ℕ → SStream → List ℕ → ℕ → Option ℕ
find_loop zero ss needle pos = none
find_loop (suc fuel) ss needle pos =
    let later = find_loop fuel ss needle (pos + 1) in
    if ltb pos ss.len && leb (length needle) (ss.len - pos)
    then if match_count ss.str pos needle == length needle then some pos else later
    else none

-- U_sstream_find
unfoldable pub find : SStream → List ℕ → SStream × Bool
find ss needle = elim (find_loop (ss.len - ss.pos) ss needle ss.pos) [
  | none ↦ (ss, false)
  | some pos ↦ (record ss { pos = pos }, true)
]

-- The loop that copies a string, and the NUL behind it.
unfoldable pub copy_str : List ℕ → ℕ → List ℕ → List ℕ
copy_str mem pos [] = set mem pos 0
copy_str mem pos (c ∷ cs) = copy_str (set mem pos c) (pos + 1) cs

-- The C string at the start of a buffer.
abbrev pub c_string : List ℕ → List ℕ
c_string [] = []
c_string (c ∷ cs) = let rest = c_string cs in if c == 0 then [] else c ∷ rest

-- U_sstream_put_str
unfoldable pub put_str : SStream → List ℕ → SStream
put_str ss text =
    if is_ok ss.status
    then if ltb (u32 (ss.pos + length text + 1)) ss.len
      then record ss { str = copy_str ss.str ss.pos text; pos = ss.pos + length text }
      else record ss { status = err_no_space }
    else ss

-- The bits of the `err` of U_strtol.
pub record Err : Type 0 where
  pub invalid : Bool
  pub overflow : Bool
  pub underflow : Bool

-- The state of the digit loop of U_strtol: `result` (unsigned long), the number of digits read and
-- the bit 2 of `e`.
pub record Digits : Type 0 where
  pub result : ℕ
  pub count : ℕ
  pub wrapped : Bool

abbrev pub is_digit : ℕ → Bool
is_digit ch = leb b'0' ch && leb ch b'9'

-- One round: the test and the two assignments, each on 64 bits.
abbrev pub push_digit : Digits → ℕ → Digits
push_digit d ch =
    let sum = u64 (u64 (d.result * 10) + (ch - b'0')) in
    record { result = sum; count = suc d.count; wrapped = d.wrapped || ltb sum d.result }

pub digit_loop : Digits → List ℕ → Digits
digit_loop d [] = d
digit_loop d (ch ∷ rest) =
    let more = digit_loop (push_digit d ch) rest in if is_digit ch then more else d

-- The whitespace that U_strtol skips.
abbrev skip_blanks : List ℕ → List ℕ
skip_blanks [] = []
skip_blanks (ch ∷ rest) =
    let more = skip_blanks rest in if ch == b' ' || ch == b'\t' then more else ch ∷ rest

-- A long result of U_strtol: the sign and the magnitude as the 64-bit pattern `result`, the number
-- of characters up to `endp`, and the error bits.
pub record Strtol : Type 0 where
  pub negative : Bool
  pub result : ℕ
  pub used : ℕ
  pub err : Err

-- The checks behind the loop, with `max` = 2 ^ 63 - 1.
abbrev pub strtol_result : Bool → ℕ → Digits → Strtol
strtol_result negative skipped d = record {
  negative = negative;
  result = d.result;
  used = skipped + d.count;
  err = record {
    invalid = d.count == 0;
    overflow = d.wrapped || not negative && ltb (2 ^ 63 - 1) d.result;
    underflow = negative && ltb (2 ^ 63) d.result;
  };
}

abbrev pub none_yet : Digits
none_yet = record { result = 0; count = 0; wrapped = false }

-- U_strtol behind the whitespace. A text that ends there is read one past its length, where the
-- model has no sign.
abbrev strtol_rest : ℕ → List ℕ → Strtol
strtol_rest skipped [] = strtol_result false skipped none_yet
strtol_rest skipped (ch ∷ rest) =
    if ch == b'-'
    then strtol_result true (suc skipped) (digit_loop none_yet rest)
    else strtol_result false skipped (digit_loop none_yet (ch ∷ rest))

-- U_strtol
pub strtol : List ℕ → Strtol
strtol text = let rest = skip_blanks text in strtol_rest (length text - length rest) rest

abbrev pub is_error : Err → Bool
is_error e = e.invalid || e.overflow || e.underflow

abbrev error_status : Err → Status
error_status e = if e.invalid then err_invalid else err_range

-- U_sstream_get_long: the number is 0 on an error, and the position moves past what was read.
pub get_long : SStream → SStream × ℤ
get_long ss =
    let r = strtol (take (ss.len - ss.pos) (drop ss.pos ss.str)) in
    let next = u32 (ss.pos + r.used) in
    if ltb ss.pos ss.len
    then (
      record ss {
        status = if is_error r.err then error_status r.err else ss.status;
        pos = if leb next ss.len then next else ss.pos;
      },
      if is_error r.err
          then Base.ℤ.pos 0
          else if r.negative
          then neg r.result
          else Base.ℤ.pos r.result,
    )
    else (ss, Base.ℤ.pos 0)
