-- ===== src/Windows/Printf.antt =====
-- main_windows.c: PL_Printf, which fills a buffer of 1024 characters. What va_arg gives for an argument
-- is a parameter, and so is the text that the buffer still holds. `long` has 32 bits here.
use gcfflashero.Base.{
  ℕ, suc, ◌+◌, ◌-◌, ◌^◌, Bool, true, false, ◌&&◌, ◌||◌, some, List, [], ◌∷◌, set, ltb, leb, ◌==◌,
  if◌then◌else◌, ℤ,
}
use gcfflashero.Base.Text.{codes}
use gcfflashero.SStream
use gcfflashero.SStream.{SStream, put_str, copy_str}
use gcfflashero.SStream.Print.{put_long, put_u32hex}

abbrev pub out_size : ℕ
out_size = 1024

-- The argument that is read next, as the format wants it.
pub record Args : Type 0 where
  pub text : ℕ → List ℕ
  pub int : ℕ → ℤ
  pub long : ℕ → ℤ
  pub unsigned_int : ℕ → ℕ
  pub unsigned_long : ℕ → ℕ

-- `ss`, whether `xx` is set, and how many arguments have been read.
pub record Output : Type 0 where
  pub ss : SStream
  pub in_spec : Bool
  pub count : ℕ

-- The cast of an unsigned long to a long.
abbrev pub as_long : ℕ → ℤ
as_long n = if ltb n (2 ^ 31) then ℤ.pos n else ℤ.negsuc (2 ^ 32 - 1 - n)

-- An argument has been printed.
abbrev pub spec_printed : SStream → Output → Output
spec_printed ss out = record { ss = ss; in_spec = false; count = suc out.count }

-- A character of a format specifier, behind `last`.
unfoldable pub on_spec : Args → ℕ → ℕ → Output → Output
on_spec args last ch out =
    if ch == b's'
    then spec_printed (put_str out.ss (args.text out.count)) out
    else if ch == b'x' || ch == b'X'
    then spec_printed (put_u32hex out.ss (args.unsigned_int out.count)) out
    else if ch == b'd'
    then spec_printed
        (put_long out.ss (if last == b'l' then args.long out.count else args.int out.count)) out
    else if ch == b'u'
    then spec_printed
        (put_long out.ss (
          as_long
            (if last == b'l' then args.unsigned_long out.count else args.unsigned_int out.count)))
        out
    else if leb b'0' ch && leb ch b'9'
    then out
    else if ch == b'l'
    then out
    else if ch == b'%'
    then record out { ss = put_str out.ss (codes "%"); in_spec = false }
    else record out { ss = put_str out.ss (codes "??"); in_spec = false }

-- One character of the format.
unfoldable pub on_format : Args → ℕ → ℕ → Output → Output
on_format args last ch out =
    if out.in_spec
    then on_spec args last ch out
    else if ch == b'%'
    then record out { in_spec = true }
    else record out {
      ss = record out.ss { str = set out.ss.str out.ss.pos ch; pos = out.ss.pos + 1 };
    }

-- The loop, which ends with the format or the buffer.
unfoldable pub format_loop : Args → ℕ → List ℕ → Output → Output
format_loop args last [] out = out
format_loop args last (ch ∷ rest) out =
    let further = format_loop args ch rest (on_format args last ch out) in
    if ltb (out.ss.pos + 1) out.ss.len then further else out

-- The buffer and the position behind the text, where the NUL is put.
unfoldable pub printf : Args → List ℕ → List ℕ → List ℕ × ℕ
printf args buf format =
    let out =
      format_loop args 0 format
        (record { ss = SStream.init (some buf) out_size; in_spec = false; count = 0 }) in
    (set out.ss.str out.ss.pos 0, out.ss.pos)
