-- ===== src/GcfFile.antt =====
-- GCF_ParseFile of gcf.c: the version in the file name and the header of a GCF firmware file.
pub mod Header
pub mod Version
mod Tests
use gcfflashero.Base.{
  ℕ, zero, suc, ◌+◌, ◌-◌, ◌%◌, ◌^◌, Bool, true, false, not, ◌&&◌, Option, none, some, List, [], ◌∷◌,
  ltb, leb, ◌==◌, if◌then◌else◌, bit_and, bit_or, u32, u64, ◌<<<◌,
}
use gcfflashero.BStream

-- GCF_File. `fname` is the text before the NUL, `fcontent` the buffer of MAX_GCF_FILE_SIZE bytes.
-- The fields that are unsigned long have 64 bits.
pub record GcfFile : Type 0 where
  pub fname : List ℕ
  pub fsize : ℕ
  pub fw_version : ℕ
  pub file_type : ℕ
  pub target_address : ℕ
  pub file_size : ℕ
  pub crc : ℕ
  pub crc32 : ℕ
  pub fcontent : List ℕ

abbrev pub gcf_header_size : ℕ
gcf_header_size = 14

abbrev pub gcf_magic : ℕ
gcf_magic = 0xCAFEFEED

abbrev pub flash_type_app_encrypted : ℕ
flash_type_app_encrypted = 60

-- The value of a hexadecimal digit; `none` ends the number.
pub hex_digit : ℕ → Option ℕ
hex_digit ch =
    if leb b'a' ch && leb ch b'f'
    then some (ch - b'a' + 10)
    else if leb b'A' ch && leb ch b'F'
    then some (ch - b'A' + 10)
    else if leb b'0' ch && leb ch b'9'
    then some (ch - b'0')
    else none

-- `fwVersion <<= 4; fwVersion |= ch; fwVersion &= 0xFFFFFFFF`
abbrev push_digit : ℕ → ℕ → ℕ
push_digit version digit = bit_and (bit_or (u64 (version <<< 4)) digit) 0xFFFFFFFF

-- The inner loop, from behind "0x" on.
pub parse_digits : ℕ → List ℕ → ℕ
parse_digits version [] = version
parse_digits version (ch ∷ rest) = elim (hex_digit ch) [
  | none ↦ version
  | some digit ↦ parse_digits (push_digit version digit) rest
]

-- The outer loop: the digits behind the first "0x"; 0 where there is none.
pub parse_version : List ℕ → ℕ
parse_version [] = 0
parse_version (c ∷ []) = 0
parse_version (c ∷ d ∷ rest) =
    let later = parse_version (d ∷ rest) in
    if c == b'0' && d == b'x' then parse_digits 0 rest else later

-- The results 0, -1, -2 and -3 of GCF_ParseFile.
pub data Status : Type 0 where
  ok too_short bad_magic bad_size : Status

-- The extended header of the newer products, read for its crc32 alone: magic1, totalSize,
-- imageSize, imageType, imageTargetAddress and imagePlainSize come before it.
abbrev read_crc32 : BStream.BStream → ℕ
read_crc32 bs =
    let (bs, magic1) = BStream.get_u32_le bs in
    let (bs, total_size) = BStream.get_u32_le bs in
    let (bs, image_size) = BStream.get_u32_le bs in
    let (bs, image_type) = BStream.get_u32_le bs in
    let (bs, image_target_address) = BStream.get_u32_le bs in
    let (bs, image_plain_size) = BStream.get_u32_le bs in (BStream.get_u32_le bs).1

-- The header fields, from `U_bstream_init` on, with the magic number.
pub read_header : GcfFile → GcfFile × ℕ
read_header file =
    let bs = BStream.init (some file.fcontent) file.fsize in
    let (bs, magic) = BStream.get_u32_le bs in
    let (bs, file_type) = BStream.get_u8 bs in
    let (bs, target_address) = BStream.get_u32_le bs in
    let (bs, file_size) = BStream.get_u32_le bs in
    let (bs, crc) = BStream.get_u8 bs in
    (
      record file {
        file_type = file_type;
        target_address = target_address;
        file_size = file_size;
        crc = crc;
        crc32 = if file_type == flash_type_app_encrypted then read_crc32 bs else 0;
      },
      magic,
    )

-- The checks at the end.
abbrev judge : GcfFile × ℕ → Status × GcfFile
judge (file, magic) = (
  if not (magic == gcf_magic)
      then bad_magic
      else if not (file.file_size == file.fsize - gcf_header_size)
      then bad_size
      else ok,
  file,
)

-- GCF_ParseFile. The assertions (a file name, the total size of the extended header) end a debug
-- build and are nothing in a release build, which is the one modelled.
pub parse_file : GcfFile → Status × GcfFile
parse_file file =
    if ltb file.fsize gcf_header_size
    then (too_short, file)
    else judge (read_header (record file { fw_version = parse_version file.fname }))
