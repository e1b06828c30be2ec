-- ===== src/GcfFile/Header.antt =====
-- The header that GCF_ParseFile (gcf.c) reads, as bytes at fixed offsets.
use gcfflashero.Base.{
  ℕ, ◌+◌, ◌-◌, ◌*◌, ◌≤◌, ◌<◌, ◌≡◌, refl, ◌∙◌, ap, some, arith, get_or, false, if◌then◌else◌, ◌==◌,
  AllBytes, ltb, leb, ◌&&◌, ◌⊎◌, inl, inr,
}
use gcfflashero.Base.Bits.{le32}
use gcfflashero.BStream
use native.Mathlib.Decide.{dec_lt}
use gcfflashero.BStream.{BStream}
use gcfflashero.BStream.Reads.{Ready, get_u8-Ready, get_u32_le-Ready}
use gcfflashero.BStream.RoundTrip.{get_u32_le_failed, get_u32_le_past}
use gcfflashero.GcfFile.{
  GcfFile, ok, bad_magic, bad_size, parse_file, gcf_header_size, gcf_magic, read_header, read_crc32,
  flash_type_app_encrypted, parse_version,
}

-- MAX_GCF_FILE_SIZE of gcf.h
abbrev pub max_gcf_file_size : ℕ
max_gcf_file_size = 1024 * 800

abbrev pub byte : GcfFile → ℕ → ℕ
byte file i = get_or file.fcontent i 0

-- The little-endian U32 at an offset.
abbrev pub word : GcfFile → ℕ → ℕ
word file i = le32 (byte file i) (byte file (i + 1)) (byte file (i + 2)) (byte file (i + 3))

module _ (file : GcfFile) (bytes : AllBytes file.fcontent)
    (small : file.fsize ≤ max_gcf_file_size) where
  abbrev cursor : ℕ → BStream
  cursor p = record (BStream.init (some file.fcontent) file.fsize) { pos = p }

  cursor-Ready : (p n : ℕ) → p + n ≤ file.fsize → Ready n (cursor p)
  unfolding BStream.init
  cursor-Ready p n h = record {
    fine = refl;
    backed = refl;
    room = record { within = h; small = omega arith };
    bytes = bytes;
  }

  u32_at :
      (p : ℕ) → p + 4 ≤ file.fsize → BStream.get_u32_le (cursor p) ≡ (cursor (p + 4), word file p)
  unfolding BStream.init
  u32_at p h =
      get_u32_le-Ready (cursor p) (cursor-Ready p 4 h)
      ∙ ap
          (λ q. (
            cursor (p + 4),
            le32 (byte file q) (byte file (p + 1)) (byte file (p + 2)) (byte file (p + 3)),
          ))
          (omega arith)

  u8_at : (p : ℕ) → p + 1 ≤ file.fsize → BStream.get_u8 (cursor p) ≡ (cursor (p + 1), byte file p)
  unfolding BStream.init
  u8_at p h =
      get_u8-Ready (cursor p) (cursor-Ready p 1 h)
      ∙ ap (λ q. (cursor (p + 1), byte file q)) (omega arith)

  past_at :
      (p : ℕ)
      → p ≤ file.fsize
      → file.fsize < p + 4
      → BStream.get_u32_le (cursor p) ≡ (record (cursor p) { status = BStream.read_past_end }, 0)
  unfolding BStream.init
  past_at p near over = get_u32_le_past (cursor p) refl refl (omega arith) near over

  -- The stream after reads up to offset `p`: there, or stopped at the end of the file.
  abbrev Reached : ℕ → BStream → Type 0
  Reached p bs =
      ((bs ≡ cursor p) × (p ≤ file.fsize)) ⊎ ((BStream.is_ok bs.status ≡ false) × (file.fsize < p))

  read_u32 :
      (p : ℕ) (bs : BStream)
      → Reached p bs
      → (Reached (p + 4) (BStream.get_u32_le bs).0)
        × ((BStream.get_u32_le bs).1 ≡ (if leb (p + 4) file.fsize then word file p else 0))
  read_u32 p bs (inr (failed, far)) =
      let e = get_u32_le_failed bs failed in
      (rw e (inr (failed, omega arith)), ap (λ t. t.1) e ∙ ground arith)
  read_u32 p bs (inl (e, near)) = elim (dec_lt file.fsize (p + 4)) [
    | no fits ↦
        let at_p = ap BStream.get_u32_le e ∙ u32_at p (omega arith) in
        (inl (ap (λ t. t.0) at_p, omega arith), ap (λ t. t.1) at_p ∙ ground arith)
    | yes over ↦
        let stopped = ap BStream.get_u32_le e ∙ past_at p near over in
        (
          inr (ap (λ t. BStream.is_ok t.0.status) stopped, over),
          ap (λ t. t.1) stopped ∙ ground arith,
        )
  ]

  read_crc32_at :
      14 ≤ file.fsize → read_crc32 (cursor 14) ≡ (if leb 42 file.fsize then word file 38 else 0)
  read_crc32_at h =
      (read_u32 38 _
        (read_u32 34 _
          (read_u32 30 _
            (read_u32 26 _
              (read_u32 22 _
                (read_u32 18 _ (read_u32 14 (cursor 14) (inl (refl, h))).0).0).0).0).0).0).1

  header_at :
      14 ≤ file.fsize
      → read_header file ≡ (
        record file {
          file_type = byte file 4;
          target_address = word file 5;
          file_size = word file 9;
          crc = byte file 13;
          crc32 = if byte file 4 == flash_type_app_encrypted then read_crc32 (cursor 14) else 0;
        },
        word file 0,
      )
  unfolding BStream.init read_header
  header_at h = rw (
    u32_at 0 (omega arith),
    u8_at 4 (omega arith),
    u32_at 5 (omega arith),
    u32_at 9 (omega arith),
    u8_at 13 (omega arith),
  )

-- Of a file that is long enough for a header, GCF_ParseFile reads the fields at their offsets,
-- little-endian, and accepts the file exactly if the magic number is right and the size field is
-- that of what follows the header. The crc32 of the extended header is read for the encrypted
-- application type alone, and is 0 where the file ends before it. The fields are set on an error
-- too.
pub parse_file_header :
    (file : GcfFile)
    → AllBytes file.fcontent
    → file.fsize ≤ max_gcf_file_size
    → gcf_header_size ≤ file.fsize
    → parse_file file ≡ (
      if word file 0 == gcf_magic
          then if word file 9 == file.fsize - gcf_header_size then ok else bad_size
          else bad_magic,
      record file {
        fw_version = parse_version file.fname;
        file_type = byte file 4;
        target_address = word file 5;
        file_size = word file 9;
        crc = byte file 13;
        crc32 =
            if byte file 4 == flash_type_app_encrypted && leb 42 file.fsize
            then word file 38
            else 0;
      },
    )
unfolding parse_file
parse_file_header file bytes small h =
    let named = record file { fw_version = parse_version file.fname } in
    let long : ltb file.fsize gcf_header_size ≡ false = ground arith in
    rw (long, header_at named bytes small h, read_crc32_at named bytes small h) (ground arith)
