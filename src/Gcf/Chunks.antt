-- ===== src/Gcf/Chunks.antt =====
-- gcf.c: what the V3 bootloader gets for a data request (ST_V3ProgramUpload).
use gcfflashero.Base.{
  ℕ, suc, ◌+◌, ◌-◌, ◌/◌, ◌%◌, ◌^◌, ◌≤◌, ◌<◌, ◌≡◌, ◌⊎◌, refl, ap, ◌∙◌, arith, Bool, true, false,
  some, List, [], ◌∷◌, ◌++◌, ltb, ◌==◌, if◌then◌else◌, length, length-append, length-take,
  length-drop, take, drop, take-append, u16, u32,
}
use gcfflashero.BufferHelper.{get_u16_le, get_u32_le}
use gcfflashero.BufferHelper.RoundTrip.{put_u8_lem, put_u16_lem, put_u32_lem}
use gcfflashero.Gcf.{
  Gcf, Platform, Event, State, Act, set_timeout, sent_flagged, did, to_state, ◌⨾◌,
}
use gcfflashero.Gcf.Machine.{handle, run_state}
use gcfflashero.Gcf.Returns.{progress_shown}
use gcfflashero.Gcf.Upload.{
  ascii_at, file_bytes, v3_status, v3_response, v3_serve, btl_magic, btl_fw_data_request,
  btl_fw_data_response,
}
use gcfflashero.GcfFile.{gcf_header_size}
use gcfflashero.Mem.{memcpy, memcpy_lem}

-- The first nine bytes of an answer: the command, the status, and the request's two fields.
abbrev pub v3_head : ℕ → ℕ → ℕ → List ℕ
v3_head status offset size =
    btl_magic
    ∷ btl_fw_data_response
    ∷ status
    ∷ (offset % 256)
    ∷ (offset / 2 ^ 8 % 256)
    ∷ (offset / 2 ^ 16 % 256)
    ∷ (offset / 2 ^ 24 % 256)
    ∷ (size % 256)
    ∷ (size / 2 ^ 8 % 256)
    ∷ []

v3_response_lem :
    (mem : List ℕ) (status offset size : ℕ)
    → 9 ≤ length mem
    → status < 256
    → v3_response mem status offset size ≡ (v3_head status offset size ++ drop 9 mem, 9)
unfolding v3_response
v3_response_lem (a ∷ b ∷ c ∷ d ∷ e ∷ f ∷ g ∷ h ∷ i ∷ mem) status offset size room small =
    let same : status % 256 ≡ status = omega arith in
    rw (put_u8_lem, put_u32_lem, put_u16_lem, same) refl
v3_response_lem _ status offset size room small = absurd (omega arith)

-- A request for `size` bytes at `offset` stands in `ascii`, and the upload waits for one.
pub record Requested (gcf : Gcf) (offset size : ℕ) : Type 0 where
  pub uploading : gcf.state ≡ State.v3_program_upload
  pub buffer : length gcf.ascii ≡ 512
  pub command : ascii_at gcf 1 ≡ btl_fw_data_request
  pub whole : gcf.wp ≡ 8
  pub offset_field : (get_u32_le gcf.ascii 2).0 ≡ offset
  pub size_field : (get_u16_le gcf.ascii 6).0 ≡ size

granted_status :
    (file_size offset size : ℕ)
    → offset + size ≤ file_size
    → 0 < size
    → size ≤ 480
    → v3_status file_size offset size ≡ 0
unfolding v3_status
granted_status file_size offset size inside pos short = ground arith

refused_status :
    (file_size offset size : ℕ)
    → (file_size < offset + size) ⊎ (480 < size) ⊎ (size ≡ 0)
    → (1 ≤ v3_status file_size offset size) × (v3_status file_size offset size ≤ 3)
unfolding v3_status
refused_status file_size offset size bad = ground arith

pub length-file_bytes :
    (gcf : Gcf) (from n : ℕ)
    → from + n ≤ length gcf.file.fcontent
    → length (file_bytes gcf from n) ≡ n
length-file_bytes gcf from n stored =
    omega (arith, length-take n (drop from gcf.file.fcontent), length-drop from gcf.file.fcontent)

-- The bytes sent, and the buffer they stand in.
module _ (front mem chunk : List ℕ) (size : ℕ) (exact : length chunk ≡ size) where
  sent_buffer :
      size ≤ length mem
      → memcpy (front ++ mem) (length front) chunk ≡ front ++ chunk ++ drop size mem
  sent_buffer room =
      memcpy_lem front mem chunk (omega arith) ∙ ap (λ n. front ++ chunk ++ drop n mem) exact

  sent_bytes : take (length front + size) (front ++ chunk ++ drop size mem) ≡ front ++ chunk
  sent_bytes =
      ap (λ n. take n (front ++ chunk ++ drop size mem)) (omega (arith, length-append front chunk))
      ∙ take-append (front ++ chunk) (drop size mem)

abbrev pub final_chunk : Gcf → ℕ → ℕ → Bool
final_chunk gcf offset size = gcf.file.file_size - offset == size

-- What the answer to a granted request leaves behind.
abbrev pub answered : Gcf → ℕ → ℕ → Gcf
answered gcf offset size =
    let chunk = file_bytes gcf (gcf_header_size + offset) size in
    record gcf {
      ascii = v3_head 0 offset size ++ chunk ++ drop size (drop 9 gcf.ascii);
      remaining = gcf.file.file_size - offset;
      effects = gcf.effects ++ sent_flagged (v3_head 0 offset size ++ chunk) ∷ [];
    }

-- What the answer to a refused request leaves behind.
abbrev pub refused : Gcf → ℕ → ℕ → ℕ → Gcf
refused gcf offset size status = record gcf {
  ascii = v3_head status offset size ++ drop 9 gcf.ascii;
  remaining = 0;
  effects = gcf.effects ++ sent_flagged (v3_head status offset size) ∷ [];
}

abbrev pub finished : Bool → Gcf → Gcf
finished last gcf = record gcf {
  effects = if last then gcf.effects ++ set_timeout 20000 ∷ [] else gcf.effects;
  state = if last then State.v3_program_wait_id else gcf.state;
}

finishing :
    (last : Bool) (gcf : Gcf)
    → (if last then (did (set_timeout 20000) ⨾ to_state State.v3_program_wait_id) gcf else some gcf)
      ≡ some (finished last gcf)
finishing true gcf = refl
finishing false gcf = refl

module _ (p : Platform) (d : Event → Act) (line_open : p.line_open ≡ true) where
  serve_granted :
      (gcf : Gcf) (offset size : ℕ)
      → length gcf.ascii ≡ 512
      → offset + size ≤ gcf.file.file_size
      → gcf.file.file_size < 2 ^ 32
      → 14 + gcf.file.file_size ≤ length gcf.file.fcontent
      → 0 < size
      → size ≤ 480
      → v3_serve p d offset size gcf
        ≡ some (finished (final_chunk gcf offset size) (answered gcf offset size))
  serve_granted gcf offset size buffer inside small stored pos short =
      let rest : u32 (gcf.file.file_size - offset) ≡ gcf.file.file_size - offset = omega arith in
      let len : (if ltb size (gcf.file.file_size - offset)
            then size
            else u16 (gcf.file.file_size - offset))
          ≡ size =
        ground arith in
      let exact = length-file_bytes gcf (14 + offset) size (omega arith) in
      let room : size ≤ length (drop 9 gcf.ascii) = omega (arith, length-drop 9 gcf.ascii) in
      progress_shown true gcf _ (omega arith)
      ∙ rw
          (
            granted_status gcf.file.file_size offset size inside pos short,
            rest,
            len,
            v3_response_lem gcf.ascii 0 offset size (omega arith) (omega arith),
            sent_buffer (v3_head 0 offset size) (drop 9 gcf.ascii)
                (file_bytes gcf (14 + offset) size) size exact room,
            sent_bytes (v3_head 0 offset size) (drop 9 gcf.ascii)
                (file_bytes gcf (14 + offset) size) size exact,
            line_open,
          )
          (finishing (final_chunk gcf offset size) (answered gcf offset size))

  serve_refused :
      (gcf : Gcf) (offset size status : ℕ)
      → length gcf.ascii ≡ 512
      → v3_status gcf.file.file_size offset size ≡ status
      → (status == 0) ≡ false
      → status < 256
      → 0 < gcf.file.file_size
      → v3_serve p d offset size gcf ≡ some (finished (0 == size) (refused gcf offset size status))
  serve_refused gcf offset size status buffer e error small pos =
      progress_shown true gcf _ pos
      ∙ rw (e, error, v3_response_lem gcf.ascii status offset size (omega arith) small, line_open)
          (finishing (0 == size) (refused gcf offset size status))

abbrev pub timed : Gcf → Gcf
timed gcf = record gcf { effects = gcf.effects ++ set_timeout 5000 ∷ [] }

request_dispatched :
    (fuel : ℕ) (p : Platform) (gcf : Gcf) (offset size : ℕ)
    → Requested gcf offset size
    → handle (suc fuel) p Event.rx_btl_pkg_data gcf
      ≡ v3_serve p (handle fuel p) offset size (timed gcf)
unfolding handle
request_dispatched fuel p gcf offset size r =
    ap (λ s. run_state p (handle fuel p) s Event.rx_btl_pkg_data gcf) r.uploading
    ∙ simp (r.command, r.whole, r.offset_field, r.size_field) refl

-- In a build with NDEBUG, a data request that lies inside the firmware and asks for 1 to 480 bytes
-- is answered, on an open line, with status 0, the fields of the request and exactly the bytes of
-- the firmware at its offset. The firmware stands in the buffer of the file and has less than 2 ^
-- 32 bytes. The last chunk starts the wait for the verification; any other leaves the upload going
-- on. The timer is set anew to 5 seconds, and to 20 behind the last chunk. Nothing else is changed
-- but the buffer of the answer and the count of what remains.
pub v3_request_granted :
    (fuel : ℕ) (p : Platform) (gcf : Gcf) (offset size : ℕ)
    → p.line_open ≡ true
    → Requested gcf offset size
    → offset + size ≤ gcf.file.file_size
    → gcf.file.file_size < 2 ^ 32
    → 14 + gcf.file.file_size ≤ length gcf.file.fcontent
    → 0 < size
    → size ≤ 480
    → handle (suc fuel) p Event.rx_btl_pkg_data gcf
      ≡ some (finished (final_chunk gcf offset size) (answered (timed gcf) offset size))
v3_request_granted fuel p gcf offset size line_open r inside small stored pos short =
    request_dispatched fuel p gcf offset size r
    ∙ serve_granted p (handle fuel p) line_open (timed gcf) offset size r.buffer inside small stored
        pos short

-- While the firmware is not empty, a data request that reaches past its end, or asks for more than
-- 480 bytes or for none, is answered, on an open line, with a status from 1 to 3, the one v3_status
-- tells, and no firmware. The upload goes on, except that a request for no bytes is taken for the
-- last chunk.
pub v3_request_refused :
    (fuel : ℕ) (p : Platform) (gcf : Gcf) (offset size : ℕ)
    → p.line_open ≡ true
    → Requested gcf offset size
    → 0 < gcf.file.file_size
    → (gcf.file.file_size < offset + size) ⊎ (480 < size) ⊎ (size ≡ 0)
    → let status = v3_status gcf.file.file_size offset size in
      (handle (suc fuel) p Event.rx_btl_pkg_data gcf
        ≡ some (finished (0 == size) (refused (timed gcf) offset size status)))
      × (1 ≤ status)
      × (status ≤ 3)
v3_request_refused fuel p gcf offset size line_open r pos bad =
    let status = refused_status gcf.file.file_size offset size bad in
    (
      request_dispatched fuel p gcf offset size r
          ∙ serve_refused p (handle fuel p) line_open (timed gcf) offset size
              (v3_status gcf.file.file_size offset size) r.buffer refl (ground (arith, status))
              (omega (arith, status)) pos,
      status.0,
      status.1,
    )
