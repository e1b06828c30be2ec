-- ===== src/BStream/Writes.antt =====
-- u_bstream.c: the bytes that a put writes.
use gcfflashero.Base.{
  ℕ, ◌+◌, ◌/◌, ◌%◌, ◌≤◌, ◌^◌, ◌≡◌, refl, sym, subst, ◌∙◌, List, Option, some, none, arith, length,
  u8, bit_and, AllBytes, AllBytes-set,
}
use gcfflashero.Base.Bits.{bit_and-mask}
use gcfflashero.BStream.{BStream, is_null, memory, u32_write, u16_write}
use gcfflashero.Base.Fields.{write2, write4, Field2, Field4, write2-Field2, write4-Field4}
use gcfflashero.BStream.Reads.{Ready}

pub mask_byte : (w : ℕ) → u8 (bit_and w 255) ≡ w % 256
mask_byte w = rw (bit_and-mask 8 w) (omega arith)

module _ (bs : BStream) (v : ℕ) where
  abbrev with_bytes : Option (List ℕ) → BStream
  with_bytes o = record bs { bytes = o }

  u32_written :
      (o : Option (List ℕ))
      → memory (u32_write v (with_bytes o))
        ≡ write4
            (memory (with_bytes o))
            bs.pos
            (v % 256)
            (v / 2 ^ 8 % 256)
            (v / 2 ^ 16 % 256)
            (v / 2 ^ 24 % 256)
  u32_written none = refl
  u32_written (some mem) =
      let two : bs.pos + 1 + 1 ≡ bs.pos + 2 = omega arith in
      let three : bs.pos + 2 + 1 ≡ bs.pos + 3 = omega arith in
      let whole : v / 1 ≡ v = omega arith in
      rw (
        two,
        three,
        whole,
        mask_byte v,
        mask_byte (v / 2 ^ 8),
        mask_byte (v / 2 ^ 16),
        mask_byte (v / 2 ^ 24),
      )

  u16_written :
      (o : Option (List ℕ))
      → memory (u16_write v (with_bytes o))
        ≡ write2 (memory (with_bytes o)) bs.pos (v % 256) (v / 2 ^ 8 % 256)
  u16_written none = refl
  u16_written (some mem) =
      let whole : v / 1 ≡ v = omega arith in rw (whole, mask_byte v, mask_byte (v / 2 ^ 8))

  is_null-u32_write : (o : Option (List ℕ)) → is_null (u32_write v (with_bytes o)).bytes ≡ is_null o
  is_null-u32_write none = refl
  is_null-u32_write (some mem) = refl

  is_null-u16_write : (o : Option (List ℕ)) → is_null (u16_write v (with_bytes o)).bytes ≡ is_null o
  is_null-u16_write none = refl
  is_null-u16_write (some mem) = refl

-- The same stream, back at an earlier position.
abbrev pub rewind : ℕ → BStream → BStream
rewind pos bs = record bs { pos = pos }

pub u32_field :
    (bs : BStream) (v : ℕ)
    → bs.pos + 4 ≤ length (memory bs)
    → Field4
        (memory bs)
        (memory (u32_write v bs))
        bs.pos
        (v % 256)
        (v / 2 ^ 8 % 256)
        (v / 2 ^ 16 % 256)
        (v / 2 ^ 24 % 256)
u32_field bs v extent =
    subst
      (λ m.
        Field4 (memory bs) m bs.pos (v % 256) (v / 2 ^ 8 % 256) (v / 2 ^ 16 % 256)
          (v / 2 ^ 24 % 256))
      (sym (u32_written bs v bs.bytes)) (write4-Field4 (memory bs) bs.pos _ _ _ _ extent)

pub u16_field :
    (bs : BStream) (v : ℕ)
    → bs.pos + 2 ≤ length (memory bs)
    → Field2 (memory bs) (memory (u16_write v bs)) bs.pos (v % 256) (v / 2 ^ 8 % 256)
u16_field bs v extent =
    subst (λ m. Field2 (memory bs) m bs.pos (v % 256) (v / 2 ^ 8 % 256))
      (sym (u16_written bs v bs.bytes)) (write2-Field2 (memory bs) bs.pos _ _ extent)

pub u32_write-Ready : (bs : BStream) (v : ℕ) → Ready 4 bs → Ready 4 (rewind bs.pos (u32_write v bs))
u32_write-Ready bs v r = record {
  fine = r.fine;
  backed = is_null-u32_write bs v bs.bytes ∙ r.backed;
  room = record { within = r.room.within; small = r.room.small };
  bytes = subst AllBytes (sym (u32_written bs v bs.bytes)) (
      AllBytes-set _ _ _
        (AllBytes-set _ _ _
          (AllBytes-set _ _ _ (AllBytes-set _ _ _ r.bytes (omega arith)) (omega arith))
          (omega arith))
        (omega arith));
}

pub u16_write-Ready : (bs : BStream) (v : ℕ) → Ready 2 bs → Ready 2 (rewind bs.pos (u16_write v bs))
u16_write-Ready bs v r = record {
  fine = r.fine;
  backed = is_null-u16_write bs v bs.bytes ∙ r.backed;
  room = record { within = r.room.within; small = r.room.small };
  bytes =
      subst AllBytes (sym (u16_written bs v bs.bytes))
        (AllBytes-set _ _ _ (AllBytes-set _ _ _ r.bytes (omega arith)) (omega arith));
}
