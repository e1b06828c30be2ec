-- ===== src/BStream/Bounds.antt =====
-- u_bstream.c: no call leaves the buffer, and an error stays.
use mathlib.Core.Option
use gcfflashero.Base.{
  ℕ, suc, ◌+◌, ◌≤◌, ◌<◌, ◌^◌, ◌≡◌, ◌⊎◌, inl, inr, refl, ◌∙◌, List, [], ◌∷◌, Option, some, none,
  arith, length, get_or, set, length-set, get_or-set_ne, u8, u64, true, false, Bool-cases, ltb,
  if◌then◌else◌,
}
use gcfflashero.BStream.{
  BStream, Status, is_ok, is_null, skip, not_initialised, memory, put_byte, u16_write, u32_write,
  verify, verify_write, verify_read, read_past_end, write_past_end, put_u8, put_u16_le, put_u32_le,
  get_u8, get_u16_le, get_u16_be, get_u32_le, get_u32_be, u8_value, u16_le_value, u16_be_value,
  u32_le_value, u32_be_value, Op, u8_put, u16_put, u32_put, u8_got, u16_le_got, u16_be_got,
  u32_le_got, u32_be_got, step, run,
}

-- `n` more bytes fit. The size leaves room in an unsigned long for the addition of a check, which
-- any object of memory does.
pub record HasRoom (n : ℕ) (bs : BStream) : Type 0 where
  pub within : bs.pos + n ≤ bs.size
  pub small : bs.size + 4 < 2 ^ 64

abbrev pub IsValid : BStream → Type 0
IsValid = HasRoom 0

-- A check leaves the stream as it was, and passes only if there is room.
verify-cases :
    (past : Status) (bs : BStream) (n : ℕ)
    → IsValid bs
    → n ≤ 4
    → ((verify past bs n ≡ (bs, true)) × HasRoom n bs)
      ⊎ ((s : Status) × (verify past bs n ≡ (record bs { status = s }, false)))
verify-cases past bs n h small = elim (Bool-cases (is_ok bs.status)) [
  | inr failed ↦ inr (bs.status, rw failed)
  | inl fine ↦ elim (Bool-cases (is_null bs.bytes)) [
    | inl null ↦ inr (not_initialised, rw (fine, null))
    | inr backed ↦ elim (Bool-cases (ltb bs.size (u64 (bs.pos + n)))) [
      | inl over ↦ inr (past, rw (fine, backed, over))
      | inr fits ↦ inl (rw (fine, backed, fits), ground arith)
    ]
  ]
]

-- What a put does to the memory; a null stream has none.
pub memory-put_byte :
    (v : ℕ) (bs : BStream) → memory (put_byte v bs) ≡ set (memory bs) bs.pos (u8 v)
memory-put_byte v bs = by_option bs.bytes
  where
    by_option :
        (o : Option (List ℕ))
        → memory (record bs { bytes = Option.map (λ mem. set mem bs.pos (u8 v)) o })
          ≡ set (memory (record bs { bytes = o })) bs.pos (u8 v)
    by_option none = refl
    by_option (some mem) = refl

-- The extent of the memory, and its byte `i`.
module _ (size extent i x : ℕ) (outside : size ≤ i) where
  record Inside (n : ℕ) (bs : BStream) : Type 0 where
    room : HasRoom n bs
    same_size : bs.size ≡ size
    same_extent : length (memory bs) ≡ extent
    same_byte : get_or (memory bs) i 0 ≡ x

  put_byte-Inside : (n v : ℕ) (bs : BStream) → Inside (suc n) bs → Inside n (put_byte v bs)
  put_byte-Inside n v bs h = record {
    room = omega (arith, h.room.within);
    same_size = h.same_size;
    same_extent = rw (memory-put_byte v bs, length-set) h.same_extent;
    same_byte =
        rw (memory-put_byte v bs) (
          get_or-set_ne (memory bs) bs.pos i (u8 v) 0 (omega (arith, h.room.within)) ∙ h.same_byte);
  }

  weaken : (n : ℕ) (bs : BStream) → HasRoom n bs → Inside 0 bs → Inside n bs
  weaken n bs r h = record {
    room = r;
    same_size = h.same_size;
    same_extent = h.same_extent;
    same_byte = h.same_byte;
  }

  with_status : (st : Status) (bs : BStream) → Inside 0 bs → Inside 0 (record bs { status = st })
  with_status st bs h = record {
    room = record { within = h.room.within; small = h.room.small };
    same_size = h.same_size;
    same_extent = h.same_extent;
    same_byte = h.same_byte;
  }

  skip-Inside : (n : ℕ) (bs : BStream) → HasRoom n bs → Inside 0 bs → Inside 0 (skip n bs)
  skip-Inside n bs r h = record {
    room = omega (arith, r.within);
    same_size = h.same_size;
    same_extent = h.same_extent;
    same_byte = h.same_byte;
  }

  -- A call that checks for `n` bytes and then goes on keeps what its two ways keep.
  after_check :
      (past : Status) (n : ℕ) (bs : BStream) (go : BStream → BStream)
      → n ≤ 4
      → Inside 0 bs
      → (HasRoom n bs → Inside 0 (go bs))
      → let (bs', room) = verify past bs n in Inside 0 (if room then go bs' else bs')
  after_check past n bs go small h keep = elim (verify-cases past bs n h.room small) [
    | inl (e, r) ↦ rw e (keep r)
    | inr (st, e) ↦ rw e (with_status st bs h)
  ]

  get-Inside :
      (n : ℕ) (bs : BStream) (value : BStream → ℕ)
      → n ≤ 4
      → Inside 0 bs
      → let (bs', room) = verify read_past_end bs n in
        Inside 0 (if◌then◌else◌ {A = BStream × ℕ} room (skip n bs', value bs') (bs', 0)).0
  get-Inside n bs value small h = elim (verify-cases read_past_end bs n h.room small) [
    | inl (e, r) ↦ rw e (skip-Inside n bs r h)
    | inr (st, e) ↦ rw e (with_status st bs h)
  ]

  step-Inside : (op : Op) (bs : BStream) → Inside 0 bs → Inside 0 (step bs op)
  unfolding step put_u8 put_u16_le put_u32_le get_u8 get_u16_le get_u16_be get_u32_le get_u32_be
      verify_write verify_read
  step-Inside (u8_put v) bs h =
      after_check write_past_end 1 bs (put_byte v) (omega arith) h
        (λ r. put_byte-Inside 0 _ bs (weaken 1 bs r h))
  step-Inside (u16_put v) bs h =
      after_check write_past_end 2 bs (u16_write v) (omega arith) h
        (λ r. put_byte-Inside 0 _ _ (put_byte-Inside 1 _ bs (weaken 2 bs r h)))
  step-Inside (u32_put v) bs h = after_check write_past_end 4 bs (u32_write v) (omega arith) h (λ r.
      put_byte-Inside 0 _ _
        (put_byte-Inside 1 _ _ (put_byte-Inside 2 _ _ (put_byte-Inside 3 _ bs (weaken 4 bs r h)))))
  step-Inside u8_got bs h = get-Inside 1 bs u8_value (omega arith) h
  step-Inside u16_le_got bs h = get-Inside 2 bs u16_le_value (omega arith) h
  step-Inside u16_be_got bs h = get-Inside 2 bs u16_be_value (omega arith) h
  step-Inside u32_le_got bs h = get-Inside 4 bs u32_le_value (omega arith) h
  step-Inside u32_be_got bs h = get-Inside 4 bs u32_be_value (omega arith) h

  run-Inside : (ops : List Op) (bs : BStream) → Inside 0 bs → Inside 0 (run bs ops)
  unfolding run
  run-Inside [] bs h = h
  run-Inside (op ∷ ops) bs h = run-Inside ops (step bs op) (step-Inside op bs h)

-- No sequence of calls moves the position past the size, changes the size, or writes a byte from
-- the end of the stream on.
pub run_stays_inside :
    (bs : BStream) (ops : List Op) (i : ℕ)
    → IsValid bs
    → bs.size ≤ i
    → let bs' = run bs ops in
      (bs'.pos ≤ bs'.size)
      × (bs'.size ≡ bs.size)
      × (length (memory bs') ≡ length (memory bs))
      × (get_or (memory bs') i 0 ≡ get_or (memory bs) i 0)
run_stays_inside bs ops i v outside =
    let h =
      run-Inside bs.size (length (memory bs)) i (get_or (memory bs) i 0) outside ops bs
        (record { room = v; same_size = refl; same_extent = refl; same_byte = refl }) in
    (omega (arith, h.room.within), h.same_size, h.same_extent, h.same_byte)

verify_failed :
    (past : Status) (bs : BStream) (n : ℕ)
    → is_ok bs.status ≡ false
    → verify past bs n ≡ (bs, false)
verify_failed past bs n e = rw e

step_failed : (bs : BStream) (op : Op) → is_ok bs.status ≡ false → step bs op ≡ bs
unfolding step put_u8 put_u16_le put_u32_le get_u8 get_u16_le get_u16_be get_u32_le get_u32_be
    verify_write verify_read
step_failed bs (u8_put v) e = rw e
step_failed bs (u16_put v) e = rw e
step_failed bs (u32_put v) e = rw e
step_failed bs u8_got e = ground arith
step_failed bs u16_le_got e = ground arith
step_failed bs u16_be_got e = ground arith
step_failed bs u32_le_got e = ground arith
step_failed bs u32_be_got e = ground arith

-- The first error stays: once the status is not ok, no later call changes the stream in any way.
pub run_failed : (bs : BStream) (ops : List Op) → is_ok bs.status ≡ false → run bs ops ≡ bs
unfolding run
run_failed bs [] e = refl
run_failed bs (op ∷ ops) e = rw (step_failed bs op e) (run_failed bs ops e)
