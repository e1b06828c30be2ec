-- ===== src/Windows/Inside.antt =====
-- PL_Printf (main_windows.c) stays inside its buffer.
use gcfflashero.Base.{
  ℕ, ◌+◌, ◌^◌, ◌<◌, ◌≡◌, refl, ◌∙◌, arith, Bool, true, false, ◌&&◌, ◌||◌, List, [], ◌∷◌, length,
  set, length-set, get_or, get_or-set_self, ltb, leb, ◌==◌, Bool-cases, inl, inr, if◌then◌else◌, ℤ,
}
use gcfflashero.Base.Text.{codes}
use gcfflashero.SStream
use gcfflashero.SStream.{SStream, put_str, copy_str, is_ok, room}
use gcfflashero.SStream.Print.{
  put_long, put_u32hex, put_sign, put_digits, low_digits, magnitude, hex_text, top_bytes, reverse,
}
use gcfflashero.Windows.Printf.{
  Args, Output, out_size, spec_printed, on_spec, on_format, format_loop, printf,
}

-- The buffer is whole, and the position leaves a place for the NUL.
pub record IsInside (ss : SStream) : Type 0 where
  pub size : length ss.str ≡ out_size
  pub len : ss.len ≡ out_size
  pub bound : ss.pos < out_size

length-copy_str : (text mem : List ℕ) (pos : ℕ) → length (copy_str mem pos text) ≡ length mem
unfolding copy_str
length-copy_str [] mem pos = length-set mem pos 0
length-copy_str (c ∷ cs) mem pos =
    length-copy_str cs (set mem pos c) (pos + 1) ∙ length-set mem pos c

pick-IsInside :
    (b : Bool) {x y : SStream}
    → (b ≡ true → IsInside x)
    → (b ≡ false → IsInside y)
    → IsInside (if b then x else y)
pick-IsInside true hx hy = hx refl
pick-IsInside false hx hy = hy refl

put_str-IsInside :
    (ss : SStream) (text : List ℕ) → length text < 2 ^ 31 → IsInside ss → IsInside (put_str ss text)
unfolding put_str
put_str-IsInside ss text short h =
    pick-IsInside (is_ok ss.status)
      (λ ok.
        pick-IsInside (ltb _ ss.len)
          (λ fits. record {
            size = length-copy_str text ss.str ss.pos ∙ h.size;
            len = h.len;
            bound = ground (arith, h, fits, short);
          })
          (λ full. record { size = h.size; len = h.len; bound = h.bound }))
      (λ e. h)

put_digits-IsInside : (ss : SStream) (buf : List ℕ) → IsInside ss → IsInside (put_digits ss buf)
put_digits-IsInside ss buf h =
    pick-IsInside (ltb (room ss) (length buf + 1))
      (λ full. record { size = h.size; len = h.len; bound = h.bound })
      (λ fits. record {
        size = length-copy_str (reverse buf) ss.str ss.pos ∙ h.size;
        len = h.len;
        bound = ground (arith, h, fits);
      })

-- The sign needs a place of its own, which the loop over the format has made sure of.
put_long-IsInside :
    (ss : SStream) (num : ℤ) → IsInside ss → ss.pos + 1 < out_size → IsInside (put_long ss num)
unfolding put_long
put_long-IsInside ss num h more =
    pick-IsInside (is_ok ss.status)
      (λ ok. put_digits-IsInside (put_sign ss num) (low_digits 20 (magnitude num)) (signed num))
      (λ e. h)
  where
    signed : (num : ℤ) → IsInside (put_sign ss num)
    signed (ℤ.pos n) = h
    signed (ℤ.negsuc n) = record {
      size = length-set ss.str ss.pos b'-' ∙ h.size;
      len = h.len;
      bound = omega arith;
    }

put_u32hex-IsInside : (ss : SStream) (val : ℕ) → IsInside ss → IsInside (put_u32hex ss val)
unfolding put_u32hex
put_u32hex-IsInside ss val h =
    pick-IsInside (ltb (room ss) 9) (λ full. record { size = h.size; len = h.len; bound = h.bound })
      (λ fits. record {
        size = length-copy_str (hex_text (top_bytes 4 val)) ss.str ss.pos ∙ h.size;
        len = h.len;
        bound = ground (arith, h, fits);
      })

-- The same, of the whole state.
record Sound (out : Output) : Type 0 where
  inside : IsInside out.ss

pick-Sound : (b : Bool) {x y : Output} → Sound x → Sound y → Sound (if b then x else y)
pick-Sound true hx hy = hx
pick-Sound false hx hy = hy

module _ (args : Args) (short : (k : ℕ) → length (args.text k) < 2 ^ 31) where
  on_spec-Sound :
      (last ch : ℕ) (out : Output)
      → Sound out
      → out.ss.pos + 1 < out_size
      → Sound (on_spec args last ch out)
  unfolding on_spec
  on_spec-Sound last ch out h more =
      let number : (num : ℤ) → Sound (spec_printed (put_long out.ss num) out) =
        λ num. record { inside = put_long-IsInside out.ss num h.inside more } in
      pick-Sound (ch == b's')
        (record {
          inside = put_str-IsInside out.ss (args.text out.count) (short out.count) h.inside;
        })
        (pick-Sound (ch == b'x' || ch == b'X')
          (record { inside = put_u32hex-IsInside out.ss (args.unsigned_int out.count) h.inside })
          (pick-Sound (ch == b'd') (number _) (
            pick-Sound (ch == b'u') (number _) (
              pick-Sound (leb b'0' ch && leb ch b'9') h (
                pick-Sound (ch == b'l') h (
                  pick-Sound (ch == b'%')
                    (record { inside = put_str-IsInside out.ss (codes "%") (omega arith) h.inside })
                    (record {
                      inside = put_str-IsInside out.ss (codes "??") (omega arith) h.inside;
                    })))))))

  on_format-Sound :
      (last ch : ℕ) (out : Output)
      → Sound out
      → out.ss.pos + 1 < out_size
      → Sound (on_format args last ch out)
  unfolding on_format
  on_format-Sound last ch out h more = pick-Sound out.in_spec (on_spec-Sound last ch out h more) (
      pick-Sound (ch == b'%') (record { inside = h.inside })
        (record {
          inside = record {
            size = length-set out.ss.str out.ss.pos ch ∙ h.inside.size;
            len = h.inside.len;
            bound = omega (arith, more);
          };
        }))

  format_loop-Sound :
      (format : List ℕ) (last : ℕ) (out : Output)
      → Sound out
      → Sound (format_loop args last format out)
  unfolding format_loop
  format_loop-Sound [] last out h = h
  format_loop-Sound (ch ∷ rest) last out h = elim (Bool-cases (ltb (out.ss.pos + 1) out.ss.len)) [
    | inl more ↦ rw more (
        format_loop-Sound rest ch (on_format args last ch out)
          (on_format-Sound last ch out h (ground (arith, h.inside, more))))
    | inr full ↦ rw full h
  ]

  -- PL_Printf of Windows ends every text with a NUL inside its buffer of 1024 characters, whatever
  -- the format and the numbers are, if the texts it prints have less than 2 ^ 31 characters; the
  -- text before it has at most 1023.
  pub printf_inside :
      (buf format : List ℕ)
      → length buf ≡ out_size
      → (length (printf args buf format).0 ≡ out_size)
        × ((printf args buf format).1 < out_size)
        × (get_or (printf args buf format).0 (printf args buf format).1 1 ≡ 0)
  unfolding printf SStream.init
  printf_inside buf format whole =
      let out = format_loop args 0 format (record {
        ss = record { str = buf; pos = 0; len = out_size; status = SStream.ok };
        in_spec = false;
        count = 0;
      }) in
      let h =
        format_loop-Sound format 0
          (record {
            ss = record { str = buf; pos = 0; len = out_size; status = SStream.ok };
            in_spec = false;
            count = 0;
          })
          (record { inside = record { size = whole; len = refl; bound = omega arith } }) in
      (
        length-set out.ss.str out.ss.pos 0 ∙ h.inside.size,
        h.inside.bound,
        get_or-set_self out.ss.str out.ss.pos 0 1 (omega (arith, h.inside)),
      )
