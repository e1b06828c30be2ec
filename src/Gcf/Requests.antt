-- ===== src/Gcf/Requests.antt =====
-- gcf.c: the data requests of the V3 bootloader, as packets that come in one behind the other, and
-- the firmware in the answers.
use gcfflashero.Base.{
  ℕ, zero, suc, ◌+◌, ◌*◌, ◌/◌, ◌%◌, ◌^◌, ◌≤◌, ◌<◌, ◌≡◌, refl, sym, ap, ◌∙◌, arith, List, [], ◌∷◌,
  ◌++◌, append-nil, append_assoc, length, length-drop, take, drop, u16,
}
use native.Mathlib.Nat.{suc-add}
use gcfflashero.Base.Bits.{bit_or-shift, le32_bytes}
use gcfflashero.BufferHelper.{get_u16_le}
use gcfflashero.BufferHelper.RoundTrip.{get_u32_lem}
use gcfflashero.Gcf.{Gcf, Platform, Event, State, Effect, set_timeout, sent_flagged}
use gcfflashero.Gcf.Chunks.{Requested, v3_head}
use gcfflashero.Gcf.Machine.{prot_packet, handle}
use gcfflashero.Gcf.Upload.{file_bytes}
use gcfflashero.Mem.{memcpy_lem}

-- The packet of a data request.
abbrev pub request : ℕ → ℕ → List ℕ
request offset size =
    0x81
    ∷ 0x04
    ∷ (offset % 256)
    ∷ (offset / 2 ^ 8 % 256)
    ∷ (offset / 2 ^ 16 % 256)
    ∷ (offset / 2 ^ 24 % 256)
    ∷ (size % 256)
    ∷ (size / 2 ^ 8 % 256)
    ∷ []

-- The requests for pieces of these sizes, one behind the other.
abbrev pub requests : ℕ → List ℕ → List (List ℕ)
requests offset [] = []
requests offset (n ∷ ns) = request offset n ∷ requests (offset + n) ns

abbrev pub total : List ℕ → ℕ
total [] = 0
total (n ∷ ns) = n + total ns

abbrev pub AllPieces : List ℕ → Type 0
AllPieces [] = Unit
AllPieces (n ∷ ns) = (0 < n) × (n ≤ 480) × AllPieces ns

-- The firmware bytes in what was sent: those behind the nine bytes of an answer.
abbrev pub firmware_sent : List Effect → List ℕ
firmware_sent [] = []
firmware_sent (sent_flagged payload ∷ es) = drop 9 payload ++ firmware_sent es
firmware_sent (_ ∷ es) = firmware_sent es

-- The upload goes on, and the firmware is in the file's buffer.
pub record IsUploading (gcf : Gcf) : Type 0 where
  pub uploading : gcf.state ≡ State.v3_program_upload
  pub buffer : length gcf.ascii ≡ 512
  pub small : gcf.file.file_size < 2 ^ 32
  pub stored : 14 + gcf.file.file_size ≤ length gcf.file.fcontent

-- The state in which EV_RX_BTL_PKG_DATA finds a request.
abbrev pub loaded : Gcf → ℕ → ℕ → Gcf
loaded gcf offset size = record gcf { ascii = request offset size ++ drop 8 gcf.ascii; wp = 8 }

size_bytes : (size : ℕ) → size < 2 ^ 16 → size % 256 + size / 2 ^ 8 % 256 * 2 ^ 8 ≡ size
size_bytes size small = omega arith

pub loaded-Requested :
    (gcf : Gcf) (offset size : ℕ)
    → IsUploading gcf
    → offset < 2 ^ 32
    → size ≤ 480
    → Requested (loaded gcf offset size) offset size
unfolding get_u16_le
loaded-Requested gcf offset size h small short = record {
  uploading = h.uploading;
  buffer = omega (arith, h.buffer, length-drop 8 gcf.ascii);
  command = refl;
  whole = refl;
  offset_field =
      ap (λ t. t.0)
        (get_u32_lem (request offset size ++ drop 8 gcf.ascii) 2 (offset % 256)
          (offset / 2 ^ 8 % 256) (offset / 2 ^ 16 % 256) (offset / 2 ^ 24 % 256) (omega arith)
          (omega arith) (omega arith) (omega arith) refl refl refl refl)
      ∙ le32_bytes offset
      ∙ omega arith;
  size_field =
      ap u16 (bit_or-shift 8 (size % 256) (size / 2 ^ 8 % 256) (omega arith)) ∙ omega arith;
}

pub packet_loaded :
    (fuel : ℕ) (p : Platform) (gcf : Gcf) (offset size : ℕ)
    → length gcf.ascii ≡ 512
    → prot_packet fuel p (request offset size) gcf
      ≡ handle fuel p Event.rx_btl_pkg_data (loaded gcf offset size)
unfolding prot_packet
packet_loaded fuel p gcf offset size buffer =
    ap (λ mem. handle fuel p Event.rx_btl_pkg_data (record gcf { ascii = mem; wp = 8 }))
      (memcpy_lem [] gcf.ascii (request offset size) (omega (arith, buffer)))

firmware_sent-append :
    (es fs : List Effect) → firmware_sent (es ++ fs) ≡ firmware_sent es ++ firmware_sent fs
firmware_sent-append [] fs = refl
firmware_sent-append (sent_flagged payload ∷ es) fs =
    ap (λ t. drop 9 payload ++ t) (firmware_sent-append es fs)
    ∙ sym (append_assoc (drop 9 payload) _ _)
firmware_sent-append (_ ∷ es) fs = firmware_sent-append es fs

-- What one piece adds to the effects.
pub piece_sent :
    (last : List Effect) (es : List Effect) (offset size : ℕ) (chunk : List ℕ)
    → firmware_sent last ≡ []
    → firmware_sent
        (es ++ set_timeout 5000 ∷ [] ++ sent_flagged (v3_head 0 offset size ++ chunk) ∷ [] ++ last)
      ≡ firmware_sent es ++ chunk
piece_sent last es offset size chunk quiet = simp (firmware_sent-append, quiet, append-nil) refl

take_nil : (n : ℕ) → take {A = ℕ} n [] ≡ []
take_nil zero = refl
take_nil (suc n) = refl

drop_nil : (n : ℕ) → drop {A = ℕ} n [] ≡ []
drop_nil zero = refl
drop_nil (suc n) = refl

take_add : (n k : ℕ) (xs : List ℕ) → take (n + k) xs ≡ take n xs ++ take k (drop n xs)
take_add zero k xs = ap (λ t. take t xs) (omega arith)
take_add (suc n) k [] = take_nil (suc n + k) ∙ sym (take_nil k)
take_add (suc n) k (x ∷ xs) = rw suc-add (ap (λ t. x ∷ t) (take_add n k xs))

drop-drop : (n a : ℕ) (xs : List ℕ) → drop n (drop a xs) ≡ drop (a + n) xs
drop-drop n zero xs = ap (λ t. drop t xs) (omega arith)
drop-drop n (suc a) [] = drop_nil n ∙ sym (drop_nil (suc a + n))
drop-drop n (suc a) (x ∷ xs) = rw suc-add (drop-drop n a xs)

-- Two pieces of the file that stand one behind the other.
pub file_bytes-join :
    (gcf : Gcf) (from n k : ℕ)
    → file_bytes gcf from n ++ file_bytes gcf (from + n) k ≡ file_bytes gcf from (n + k)
file_bytes-join gcf from n k =
    ap (λ t. file_bytes gcf from n ++ take k t) (sym (drop-drop n from gcf.file.fcontent))
    ∙ sym (take_add n k (drop from gcf.file.fcontent))
