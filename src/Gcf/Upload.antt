-- ===== src/Gcf/Upload.antt =====
-- gcf.c: the handlers that feed the bootloaders, ST_V1Program* and ST_V3Program*, in a build with
-- NDEBUG. In a build without it an Assert ends the program at a V3 request inside a firmware that has
-- 65535 bytes or more left, and at a V1 request for a page past the end.
use gcfflashero.Base.{
  ℕ, ◌+◌, ◌-◌, ◌*◌, ◌^◌, ◌%◌, Bool, true, not, ◌&&◌, ◌||◌, Option, none, some, List, [], ◌∷◌, ltb,
  leb, ◌==◌, if◌then◌else◌, get_or, set, take, drop, u16, u32, bit_or, ◌<<<◌,
}
use gcfflashero.Base.Text.{codes}
use gcfflashero.BufferHelper.{put_u8_le, put_u16_le, put_u32_le, get_u16_le, get_u32_le}
use gcfflashero.Gcf.{
  Gcf, Platform, Act, ◌⨾◌, did, to_state, clear_ascii, put_line, retry_later, Event, action,
  timeout, rx_ascii, rx_btl_pkg_data, clear_timeout, set_timeout, sleep, shut_down, wrote,
  sent_flagged, v1_program_write_header, v1_program_upload, v1_program_validate, v3_program_upload,
  v3_program_wait_id,
}
use gcfflashero.GcfFile.{GcfFile, gcf_header_size}
use gcfflashero.Mem.{memcpy}
use gcfflashero.SStream

abbrev pub btl_magic : ℕ
btl_magic = 0x81

abbrev pub btl_id_response : ℕ
btl_id_response = 0x82

abbrev pub btl_fw_update_request : ℕ
btl_fw_update_request = 0x03

abbrev pub btl_fw_update_response : ℕ
btl_fw_update_response = 0x83

abbrev pub btl_fw_data_request : ℕ
btl_fw_data_request = 0x04

abbrev pub btl_fw_data_response : ℕ
btl_fw_data_response = 0x84

abbrev pub v1_pagesize : ℕ
v1_pagesize = 256

-- `gcf->ascii[i]` as an unsigned char
abbrev pub ascii_at : Gcf → ℕ → ℕ
ascii_at gcf i = get_or gcf.ascii i 0

-- U_sstream_find in the first `wp` characters received.
abbrev pub received_has : Gcf → List ℕ → Bool
received_has gcf text = (SStream.find (SStream.init (some gcf.ascii) gcf.wp) text).1

-- `n` bytes of the file buffer from index `from` on; fewer where `fcontent`, what was read of the
-- file, ends, behind which the code finds what the buffer held before.
abbrev pub file_bytes : Gcf → ℕ → ℕ → List ℕ
file_bytes gcf from n = take n (drop from gcf.file.fcontent)

-- The ten bytes that ST_V1ProgramWriteHeader writes: size, address, type and checksum.
pub v1_header : GcfFile → List ℕ
v1_header file =
    let p = put_u32_le (0 ∷ 0 ∷ 0 ∷ 0 ∷ 0 ∷ 0 ∷ 0 ∷ 0 ∷ 0 ∷ 0 ∷ [], 0) file.file_size in
    let (buf, p) = put_u32_le p file.target_address in
    set (set buf p file.file_type) (p + 1) file.crc

-- The command of ST_V3ProgramSync.
pub v3_update_request : GcfFile → List ℕ
v3_update_request file =
    let cmd =
      btl_magic ∷ btl_fw_update_request ∷ 0x00 ∷ 0x0C ∷ 0x00 ∷ 0x00 ∷ 0x00 ∷ 0x00 ∷ 0x00 ∷ 0x00
      ∷ 0x00 ∷ 0xAA ∷ 0xAA ∷ 0xAA ∷ 0xAA ∷ [] in
    let p = put_u32_le (cmd, 2) file.file_size in
    let p = put_u32_le p file.target_address in (put_u8_le p file.file_type).0

-- The page of a request "GET" page ";".
abbrev pub v1_page_number : Gcf → ℕ
v1_page_number gcf = bit_or (ascii_at gcf 4 <<< 8) (ascii_at gcf 3)

-- The indices in `fcontent` of `page` and `end`.
abbrev pub v1_page : Gcf → ℕ
v1_page gcf = gcf_header_size + v1_page_number gcf * v1_pagesize

abbrev pub v1_end : Gcf → ℕ
v1_end gcf = gcf_header_size + gcf.file.file_size

-- The status of an answer to a data request: 0, or the error 1, 2 or 3.
unfoldable pub v3_status : ℕ → ℕ → ℕ → ℕ
v3_status file_size offset size =
    if ltb file_size (offset + size)
    then 1
    else if ltb (512 - 32) size
    then 2
    else if size == 0
    then 3
    else 0

-- The answer in `ascii` up to the firmware bytes, with the pointer behind it.
unfoldable pub v3_response : List ℕ → ℕ → ℕ → ℕ → List ℕ × ℕ
v3_response mem status offset size =
    let buf = set (set mem 0 btl_magic) 1 btl_fw_data_response in
    put_u16_le (put_u32_le (put_u8_le (buf, 2) status) offset) size

-- `remaining` and `length` behind the checks.
abbrev pub v3_remaining : ℕ → ℕ → ℕ → ℕ
v3_remaining file_size offset status = if status == 0 then u32 (file_size - offset) else 0

abbrev pub v3_length : ℕ → ℕ → ℕ → ℕ
v3_length rest size status = if status == 0 then if ltb size rest then size else u16 rest else size

-- UI_UpdateProgress, called when `shown`, divides by the size of the firmware; where that is 0 the
-- program ends there, and with `none` here. Nothing before the call changes the file.
abbrev pub update_progress : Bool → Gcf → Option Gcf → Option Gcf
update_progress shown gcf o = if shown && gcf.file.file_size == 0 then none else o

-- The progress of a V1 upload is shown for every twentieth page and for the last one.
abbrev pub v1_shown : Gcf → ℕ → Bool
v1_shown gcf rest = v1_page_number gcf % 20 == 0 || ltb rest v1_pagesize

module _ (p : Platform) (dispatch : Event → Act) where
  abbrev pub st_v1_program_sync : Event → Act
  st_v1_program_sync action =
      clear_ascii
      ⨾ put_line p dispatch (wrote (0x1A ∷ 0x1C ∷ 0xA9 ∷ 0xAE ∷ []))
      ⨾ did (set_timeout 500)
  st_v1_program_sync rx_ascii = λ gcf.
      if ltb 4 gcf.wp && received_has gcf (codes "READY")
      then (did clear_timeout ⨾ to_state v1_program_write_header ⨾ dispatch action) gcf
      else did (set_timeout 500) gcf
  st_v1_program_sync timeout = retry_later p
  st_v1_program_sync _ = some

  abbrev pub st_v1_program_write_header : Event → Act
  st_v1_program_write_header action =
      clear_ascii
      ⨾ to_state v1_program_upload
      ⨾ (λ gcf. put_line p dispatch (wrote (v1_header gcf.file)) gcf)
      ⨾ did (set_timeout 1000)
  st_v1_program_write_header _ = some

  -- The end of a page request, from `gcf->remaining = …` on.
  abbrev pub v1_serve : ℕ → ℕ → Act
  v1_serve page end gcf =
      let rest = u32 (end + 2 ^ 32 - page) in
      let size = if ltb v1_pagesize rest then v1_pagesize else rest in
      update_progress (v1_shown gcf rest) gcf (
        ((λ gcf. some (record gcf { remaining = rest }))
            ⨾ clear_ascii
            ⨾ put_line p dispatch (wrote (file_bytes gcf page size))
            ⨾ (λ gcf.
                if u32 (gcf.remaining + 2 ^ 32 - size) == 0
                then (to_state v1_program_validate ⨾ did (set_timeout 25600)) gcf
                else did (set_timeout 2000) gcf))
          gcf)

  -- There is no `return` behind the gcfRetry for a page past the end.
  abbrev pub st_v1_program_upload : Event → Act
  st_v1_program_upload rx_ascii = λ gcf.
      if ltb gcf.wp 6 || not (ascii_at gcf 0 == b'G') || not (ascii_at gcf 5 == b';')
      then some gcf
      else ((if leb (v1_end gcf) (v1_page gcf) then retry_later p else some)
            ⨾ v1_serve (v1_page gcf) (v1_end gcf))
          gcf
  st_v1_program_upload timeout = retry_later p
  st_v1_program_upload _ = some

  abbrev pub st_v1_program_validate : Event → Act
  st_v1_program_validate rx_ascii = λ gcf.
      if ltb 6 gcf.wp && received_has gcf (codes "#VALID CRC")
      then did shut_down gcf
      else did (set_timeout 1000) gcf
  st_v1_program_validate timeout = retry_later p
  st_v1_program_validate _ = some

  abbrev pub st_v3_program_sync : Event → Act
  st_v3_program_sync action =
      did (sleep 50)
      ⨾ did (set_timeout 1000)
      ⨾ (λ gcf. put_line p dispatch (sent_flagged (v3_update_request gcf.file)) gcf)
  st_v3_program_sync rx_btl_pkg_data = λ gcf.
      if ascii_at gcf 1 == btl_fw_update_response && ascii_at gcf 2 == 0
      then (did (set_timeout 1000) ⨾ to_state v3_program_upload) gcf
      else some gcf
  st_v3_program_sync timeout = retry_later p
  st_v3_program_sync _ = some

  -- The answer to a data request for `size` bytes at `offset`.
  abbrev pub v3_serve : ℕ → ℕ → Act
  v3_serve offset size gcf =
      let status = v3_status gcf.file.file_size offset size in
      let rest = v3_remaining gcf.file.file_size offset status in
      let size = v3_length rest size status in
      let (head, end) = v3_response gcf.ascii status offset size in
      let chunk = file_bytes gcf (gcf_header_size + offset) size in
      let mem = if status == 0 then memcpy head end chunk else head in
      let end = if status == 0 then end + size else end in
      update_progress true gcf (
        ((λ gcf. some (record gcf { ascii = mem; remaining = rest }))
            ⨾ put_line p dispatch (sent_flagged (take end mem))
            ⨾ (λ gcf.
                if gcf.remaining == size
                then (did (set_timeout 20000) ⨾ to_state v3_program_wait_id) gcf
                else some gcf))
          gcf)

  abbrev pub st_v3_program_upload : Event → Act
  st_v3_program_upload rx_btl_pkg_data = λ gcf.
      if ascii_at gcf 1 == btl_fw_data_request && gcf.wp == 8
      then (did (set_timeout 5000) ⨾ v3_serve (get_u32_le gcf.ascii 2).0 (get_u16_le gcf.ascii 6).0)
          gcf
      else some gcf
  st_v3_program_upload timeout = retry_later p
  st_v3_program_upload _ = some

  abbrev pub st_v3_program_wait_id : Event → Act
  st_v3_program_wait_id rx_btl_pkg_data =
      λ gcf. if ascii_at gcf 1 == btl_id_response then did shut_down gcf else some gcf
  st_v3_program_wait_id timeout = retry_later p
  st_v3_program_wait_id _ = some
