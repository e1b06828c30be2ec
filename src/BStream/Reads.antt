-- ===== src/BStream/Reads.antt =====
-- u_bstream.c: what a get returns on a stream with room.
use gcfflashero.Base.{
  ℕ, ◌+◌, ◌*◌, ◌≤◌, ◌<◌, ◌^◌, ◌≡◌, ap, arith, u16, true, false, AllBytes, AllBytes-get_or,
}
use gcfflashero.Base.Bits.{shift-bit_or, le32, or_down}
use gcfflashero.BStream.{
  BStream, Status, ok, is_null, memory, byte_at, verify, verify_read, read_past_end, get_u8,
  get_u16_le, get_u16_be, get_u32_le, get_u32_be, skip,
}
use gcfflashero.BStream.Bounds.{HasRoom}

-- The stream is sound, and `n` more bytes fit.
pub record Ready (n : ℕ) (bs : BStream) : Type 0 where
  pub fine : bs.status ≡ ok
  pub backed : is_null bs.bytes ≡ false
  pub room : HasRoom n bs
  pub bytes : AllBytes (memory bs)

pub verify-Ready :
    (past : Status) (n : ℕ) (bs : BStream) → n ≤ 4 → Ready n bs → verify past bs n ≡ (bs, true)
verify-Ready past n bs small r = rw (r.fine, r.backed) (ground (arith, r.room.within, r.room.small))

-- The byte at an offset from the position.
abbrev pub next : BStream → ℕ → ℕ
next bs k = byte_at bs (bs.pos + k)

module _ (bs : BStream) where
  small : (k : ℕ) {n : ℕ} → Ready n bs → next bs k < 256
  small k r = AllBytes-get_or (memory bs) (bs.pos + k) r.bytes

  here : byte_at bs bs.pos ≡ next bs 0
  here = ap (byte_at bs) (omega arith)

  pub get_u8-Ready : Ready 1 bs → get_u8 bs ≡ (skip 1 bs, next bs 0)
  unfolding get_u8 verify_read
  get_u8-Ready r = rw (verify-Ready read_past_end 1 bs (omega arith) r, here)

  pub get_u16_le-Ready : Ready 2 bs → get_u16_le bs ≡ (skip 2 bs, next bs 0 + next bs 1 * 2 ^ 8)
  unfolding get_u16_le verify_read
  get_u16_le-Ready r =
      let low = small 0 r in
      let high = small 1 r in
      let fits : u16 (next bs 1 * 2 ^ 8) ≡ next bs 1 * 2 ^ 8 = omega arith in
      rw
        (
          verify-Ready read_past_end 2 bs (omega arith) r,
          here,
          fits,
          shift-bit_or 8 (next bs 1) (next bs 0) low,
        )
        (ap (λ t. (skip 2 bs, t)) (omega arith))

  pub get_u16_be-Ready : Ready 2 bs → get_u16_be bs ≡ (skip 2 bs, next bs 1 + next bs 0 * 2 ^ 8)
  unfolding get_u16_be verify_read
  get_u16_be-Ready r =
      let high = small 0 r in
      let low = small 1 r in
      let fits : u16 (next bs 0 * 2 ^ 8) ≡ next bs 0 * 2 ^ 8 = omega arith in
      rw
        (
          verify-Ready read_past_end 2 bs (omega arith) r,
          here,
          fits,
          shift-bit_or 8 (next bs 0) (next bs 1) low,
        )
        (ap (λ t. (skip 2 bs, t)) (omega arith))

  -- A get of four bytes returns their little-endian number, and moves past them.
  pub get_u32_le-Ready :
      Ready 4 bs → get_u32_le bs ≡ (skip 4 bs, le32 (next bs 0) (next bs 1) (next bs 2) (next bs 3))
  unfolding get_u32_le verify_read
  get_u32_le-Ready r =
      rw (verify-Ready read_past_end 4 bs (omega arith) r, here)
        (ap (λ t. (skip 4 bs, t)) (or_down _ _ _ _ (small 0 r) (small 1 r) (small 2 r) (small 3 r)))

  pub get_u32_be-Ready :
      Ready 4 bs → get_u32_be bs ≡ (skip 4 bs, le32 (next bs 3) (next bs 2) (next bs 1) (next bs 0))
  unfolding get_u32_be verify_read
  get_u32_be-Ready r =
      rw (verify-Ready read_past_end 4 bs (omega arith) r, here)
        (ap (λ t. (skip 4 bs, t)) (or_down _ _ _ _ (small 3 r) (small 2 r) (small 1 r) (small 0 r)))
