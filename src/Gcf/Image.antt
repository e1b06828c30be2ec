-- ===== src/Gcf/Image.antt =====
-- gcf.c: a whole V3 upload, as the run of data requests that asks for the firmware piece by piece.
use gcfflashero.Base.{
  ℕ, suc, ◌+◌, ◌≤◌, ◌<◌, ◌≡◌, refl, sym, ap, ◌∙◌, arith, Bool, true, false, some, none, List, [],
  ◌∷◌, ◌++◌, append-nil, append_assoc, length-append, length-drop, drop,
}
use gcfflashero.Gcf.{Gcf, Platform, State, set_timeout}
use gcfflashero.Gcf.Chunks.{
  answered, finished, final_chunk, timed, v3_request_granted, length-file_bytes,
}
use gcfflashero.Gcf.Machine.{prot_packet, prot_packets}
use gcfflashero.Gcf.Upload.{file_bytes}
use gcfflashero.Gcf.Requests.{
  request, requests, total, AllPieces, firmware_sent, IsUploading, loaded, loaded-Requested,
  packet_loaded, piece_sent, file_bytes-join,
}

abbrev served : Gcf → ℕ → ℕ → Gcf
served gcf offset size = answered (timed (loaded gcf offset size)) offset size

module _ (fuel : ℕ) (p : Platform) (line_open : p.line_open ≡ true) where
  piece :
      (gcf : Gcf) (offset n : ℕ)
      → IsUploading gcf
      → offset + n ≤ gcf.file.file_size
      → 0 < n
      → n ≤ 480
      → prot_packet (suc fuel) p (request offset n) gcf
        ≡ some (finished (final_chunk gcf offset n) (served gcf offset n))
  piece gcf offset n h inside pos short =
      packet_loaded (suc fuel) p gcf offset n h.buffer
      ∙ v3_request_granted fuel p (loaded gcf offset n) offset n line_open
          (loaded-Requested gcf offset n h (omega (arith, h.small)) short) inside h.small h.stored
          pos short

  served-IsUploading :
      (gcf : Gcf) (offset n : ℕ)
      → IsUploading gcf
      → offset + n ≤ gcf.file.file_size
      → n ≤ 480
      → IsUploading (served gcf offset n)
  served-IsUploading gcf offset n h inside short = record {
    uploading = h.uploading;
    buffer = omega (
      arith,
      h.buffer,
      length-append (file_bytes gcf (14 + offset) n)
          (drop n (drop 9 (request offset n ++ drop 8 gcf.ascii))),
      length-file_bytes gcf (14 + offset) n (omega (arith, h.stored)),
      length-drop n (drop 9 (request offset n ++ drop 8 gcf.ascii)),
      length-drop 1 (drop 8 gcf.ascii),
      length-drop 8 gcf.ascii,
    );
    small = h.small;
    stored = h.stored;
  }

  -- The effects of one piece.
  served_sent :
      (last : Bool) (gcf : Gcf) (offset n : ℕ)
      → firmware_sent (finished last (served gcf offset n)).effects
        ≡ firmware_sent gcf.effects ++ file_bytes gcf (14 + offset) n
  served_sent true gcf offset n =
      piece_sent (set_timeout 20000 ∷ []) gcf.effects offset n (file_bytes gcf (14 + offset) n) refl
  served_sent false gcf offset n =
      sym (ap firmware_sent (append-nil (finished false (served gcf offset n)).effects))
      ∙ piece_sent [] gcf.effects offset n (file_bytes gcf (14 + offset) n) refl

  -- One piece, and the rest of the requests.
  piece_then :
      (gcf : Gcf) (offset n : ℕ) (rest : List (List ℕ)) (last : Bool)
      → IsUploading gcf
      → offset + n ≤ gcf.file.file_size
      → 0 < n
      → n ≤ 480
      → final_chunk gcf offset n ≡ last
      → prot_packets (suc fuel) p (request offset n ∷ rest) gcf
        ≡ prot_packets (suc fuel) p rest (finished last (served gcf offset n))
  piece_then gcf offset n rest last h inside pos short e =
      ap (λ o. elim o [ none ↦ none | some g ↦ prot_packets (suc fuel) p rest g ])
        (piece gcf offset n h inside pos short
          ∙ ap (λ b. some (finished b (served gcf offset n))) e)

  abbrev Uploaded : Gcf → ℕ → List ℕ → Type 0
  Uploaded gcf offset sizes =
      (gcf' : Gcf) × (prot_packets (suc fuel) p (requests offset sizes) gcf ≡ some gcf')
      × (gcf'.state ≡ State.v3_program_wait_id)
      × (firmware_sent gcf'.effects
          ≡ firmware_sent gcf.effects ++ file_bytes gcf (14 + offset) (total sizes))

  upload_rest :
      (n : ℕ) (sizes : List ℕ) (gcf : Gcf) (offset : ℕ)
      → IsUploading gcf
      → AllPieces (n ∷ sizes)
      → offset + total (n ∷ sizes) ≡ gcf.file.file_size
      → Uploaded gcf offset (n ∷ sizes)
  upload_rest n [] gcf offset h (pos, short, _) whole = (
    finished true (served gcf offset n),
    piece_then gcf offset n [] true h (omega (arith, whole)) pos short (ground (arith, whole)),
    refl,
    served_sent true gcf offset n
        ∙ ap (λ k. firmware_sent gcf.effects ++ file_bytes gcf (14 + offset) k) (omega arith),
  )
  upload_rest n (m ∷ sizes) gcf offset h (pos, short, more) whole =
      let (gcf', run, state, sent) =
        upload_rest m sizes (served gcf offset n) (offset + n)
          (served-IsUploading gcf offset n h (omega (arith, whole)) short) more
          (omega (arith, whole)) in
      (
        gcf',
        piece_then gcf offset n (requests (offset + n) (m ∷ sizes)) false h (omega (arith, whole))
              pos short (ground (arith, whole, more.0))
            ∙ run,
        state,
        sent
            ∙ ap
                (λ k.
                  firmware_sent (served gcf offset n).effects
                  ++ file_bytes gcf k (total (m ∷ sizes)))
                (omega arith)
            ∙ ap (λ t. t ++ file_bytes gcf (14 + offset + n) (total (m ∷ sizes)))
                (served_sent false gcf offset n)
            ∙ append_assoc (firmware_sent gcf.effects) _ _
            ∙ ap (λ t. firmware_sent gcf.effects ++ t)
                (file_bytes-join gcf (14 + offset) n (total (m ∷ sizes))),
      )

-- In a build with NDEBUG, a bootloader that asks for the firmware, of less than 2 ^ 32 bytes and in
-- the buffer of the file, in pieces of 1 to 480 bytes, one behind the other up to its end, is sent,
-- on an open line, exactly the firmware of the file, in order and once; behind the last piece the
-- upload waits for the verification.
pub whole_upload :
    (fuel : ℕ) (p : Platform) (gcf : Gcf) (n : ℕ) (sizes : List ℕ)
    → p.line_open ≡ true
    → IsUploading gcf
    → AllPieces (n ∷ sizes)
    → total (n ∷ sizes) ≡ gcf.file.file_size
    → (gcf' : Gcf) × (prot_packets (suc fuel) p (requests 0 (n ∷ sizes)) gcf ≡ some gcf')
      × (gcf'.state ≡ State.v3_program_wait_id)
      × (firmware_sent gcf'.effects
          ≡ firmware_sent gcf.effects ++ file_bytes gcf 14 gcf.file.file_size)
whole_upload fuel p gcf n sizes line_open h pieces whole =
    let (gcf', run, state, sent) =
      upload_rest fuel p line_open n sizes gcf 0 h pieces (omega (arith, whole)) in
    (gcf', run, state, sent ∙ ap (λ k. firmware_sent gcf.effects ++ file_bytes gcf 14 k) whole)
