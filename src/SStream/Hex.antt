-- ===== src/SStream/Hex.antt =====
-- What U_sstream_put_hex of u_sstream.c prints spells the bytes.
use gcfflashero.Base.{
  ℕ, ◌+◌, ◌-◌, ◌*◌, ◌/◌, ◌%◌, ◌^◌, ◌≤◌, ◌<◌, ◌≡◌, refl, ap, ap₂, ◌∙◌, arith, Bool, Bool-cases, inl,
  inr, true, false, List, [], ◌∷◌, ltb, leb, length, if◌then◌else◌, u32, bit_and, ◌⊎◌,
}
use gcfflashero.Base.Bits.{bit_and-mask, bit_and-shift}
use gcfflashero.SStream.{SStream, err_no_space, room, copy_str}
use gcfflashero.SStream.Copied.{Copied, copy_str-Copied}
use gcfflashero.SStream.Print.{hex_char, hex_text, put_hex, put_u32hex}

-- The reading of hexadecimal digits in capitals.
abbrev pub hex_value : ℕ → ℕ
hex_value c = if leb c b'9' then c - b'0' else c - b'A' + 10

abbrev pub spelled : List ℕ → List ℕ
spelled [] = []
spelled (c ∷ []) = []
spelled (c ∷ d ∷ rest) = (hex_value c * 16 + hex_value d) ∷ spelled rest

abbrev pub AllBytes : List ℕ → Type 0
AllBytes [] = Unit
AllBytes (b ∷ bs) = (b < 256) × AllBytes bs

hex_value-hex_char : (n : ℕ) → n < 16 → hex_value (hex_char n) ≡ n
hex_value-hex_char n h = ground arith

nibbles : (b : ℕ) → b < 256 → (bit_and b 0xF0 / 16 ≡ b / 16) × (bit_and b 0x0F ≡ b % 16)
nibbles b h =
    let low = bit_and-mask 4 b in
    let high = bit_and-shift 4 b 15 in
    let top = bit_and-mask 4 (b / 2 ^ 4) in (omega arith, omega arith)

length-hex_text : (bs : List ℕ) → length (hex_text bs) ≡ length bs * 2
length-hex_text [] = refl
length-hex_text (b ∷ bs) = omega (arith, length-hex_text bs)

spelled-hex_text : (bs : List ℕ) → AllBytes bs → spelled (hex_text bs) ≡ bs
spelled-hex_text [] all = refl
spelled-hex_text (b ∷ bs) all =
    let (high, low) = nibbles b all.0 in
    let byte : b / 16 * 16 + b % 16 ≡ b = omega arith in
    ap₂ ◌∷◌
      (ap₂ (λ h l. hex_value (hex_char h) * 16 + hex_value (hex_char l)) high low
        ∙ ap₂ (λ h l. h * 16 + l) (hex_value-hex_char (b / 16) (omega (arith, all.0)))
            (hex_value-hex_char (b % 16) (omega arith))
        ∙ byte)
      (spelled-hex_text bs all.1)

module _ (ss : SStream) (bytes : List ℕ) where
  abbrev hexed : SStream
  hexed = record ss {
    str = copy_str ss.str ss.pos (hex_text bytes);
    pos = ss.pos + length bytes * 2;
  }

  put_hex_by :
      (b : Bool)
      → ltb (room ss) (u32 (u32 (length bytes * 2) + 1)) ≡ b
      → put_hex ss bytes ≡ (if b then record ss { status = err_no_space } else hexed)
  unfolding put_hex
  put_hex_by b test = ap (λ c. if c then record ss { status = err_no_space } else hexed) test

-- U_sstream_put_hex puts hexadecimal text that spells the bytes, and a NUL, at the position of a
-- sound stream and moves behind the text, changing no other byte, where there is room; elsewhere it
-- sets the status and does nothing else.
pub put_hex_lem :
    (ss : SStream) (bytes : List ℕ)
    → AllBytes bytes
    → length ss.str ≡ ss.len
    → ss.pos ≤ ss.len
    → ss.len < 2 ^ 32
    → length bytes * 2 + 1 < 2 ^ 32
    → ((ss.pos + length bytes * 2 < ss.len)
        × ((text : List ℕ) × (mem : List ℕ) × (spelled text ≡ bytes)
            × Copied ss.str mem ss.pos text
            × (put_hex ss bytes ≡ record ss { str = mem; pos = ss.pos + length bytes * 2 })))
      ⊎ ((ss.len ≤ ss.pos + length bytes * 2)
          × (put_hex ss bytes ≡ record ss { status = err_no_space }))
put_hex_lem ss bytes all sized inside small short =
    elim (Bool-cases (ltb (room ss) (u32 (u32 (length bytes * 2) + 1)))) [
      | inl e ↦ inr (ground arith, put_hex_by ss bytes true e)
      | inr e ↦ inl (
        ground arith,
        (
          hex_text bytes,
          copy_str ss.str ss.pos (hex_text bytes),
          spelled-hex_text bytes all,
          copy_str-Copied (hex_text bytes) ss.str ss.pos (ground (arith, length-hex_text bytes)),
          put_hex_by ss bytes false e,
        ),
      )
    ]

-- U_sstream_put_u32hex prints the four bytes of a 32-bit number, the high one first.
pub put_u32hex-put_hex :
    (ss : SStream) (val : ℕ)
    → put_u32hex ss val
      ≡ put_hex ss (val / 2 ^ 24 % 256 ∷ val / 2 ^ 16 % 256 ∷ val / 2 ^ 8 % 256 ∷ val % 256 ∷ [])
unfolding put_u32hex put_hex
put_u32hex-put_hex ss val =
    let second : val * 2 ^ 8 % 2 ^ 64 / 2 ^ 24 % 256 ≡ val / 2 ^ 16 % 256 = omega arith in
    let third : val * 2 ^ 8 % 2 ^ 64 * 2 ^ 8 % 2 ^ 64 / 2 ^ 24 % 256 ≡ val / 2 ^ 8 % 256 =
      omega arith in
    let fourth : val * 2 ^ 8 % 2 ^ 64 * 2 ^ 8 % 2 ^ 64 * 2 ^ 8 % 2 ^ 64 / 2 ^ 24 % 256 ≡ val % 256 =
      omega arith in
    rw (second, third, fourth) refl
