-- ===== src/Gcf/Book.antt =====
-- gcf.c: a whole V1 upload, as the requests for one page behind the other (ST_V1ProgramUpload).
use gcfflashero.Base.{
  ℕ, zero, suc, ◌+◌, ◌-◌, ◌*◌, ◌/◌, ◌%◌, ◌^◌, ◌≤◌, ◌<◌, ◌≡◌, refl, sym, ap, ◌∙◌, arith, Bool, true,
  false, some, none, Option, List, [], ◌∷◌, ◌++◌, append_assoc, append-nil, drop, take, length, min,
  ◌==◌, if◌then◌else◌, set,
}
use gcfflashero.Gcf.{Gcf, Platform, Event, State, Effect, wrote, set_timeout}
use gcfflashero.Gcf.Machine.{handle}
use gcfflashero.Gcf.Pages.{page_written, v1_page_served}
use gcfflashero.Gcf.Requests.{file_bytes-join}
use gcfflashero.Gcf.Upload.{file_bytes}

-- The request for page `n` stands in the buffer.
abbrev pub asked : Gcf → ℕ → Gcf
asked gcf n = record gcf {
  ascii = b'G' ∷ b'E' ∷ b'T' ∷ (n % 256) ∷ (n / 256) ∷ b';' ∷ drop 6 gcf.ascii;
  wp = 6;
}

-- The requests for `count` pages from page `n` on, each handled behind the one before.
unfoldable pub page_requests : ℕ → Platform → ℕ → ℕ → Gcf → Option Gcf
page_requests fuel p n zero gcf = some gcf
page_requests fuel p n (suc count) gcf = elim (handle fuel p Event.rx_ascii (asked gcf n)) [
  | none ↦ none
  | some gcf' ↦ page_requests fuel p (suc n) count gcf'
]

-- The bytes that were written to the line without a frame.
abbrev pub written : List Effect → List ℕ
written [] = []
written (wrote bytes ∷ es) = bytes ++ written es
written (_ ∷ es) = written es

written-append : (es fs : List Effect) → written (es ++ fs) ≡ written es ++ written fs
written-append [] fs = refl
written-append (wrote bytes ∷ es) fs =
    ap (λ t. bytes ++ t) (written-append es fs) ∙ sym (append_assoc bytes _ _)
written-append (_ ∷ es) fs = written-append es fs

-- What one page adds to the effects.
page_effects :
    (es : List Effect) (bytes : List ℕ) (ms : ℕ)
    → written (es ++ wrote bytes ∷ [] ++ set_timeout ms ∷ []) ≡ written es ++ bytes
page_effects es bytes ms = simp (written-append, append-nil) refl

-- The state behind a page, the last one or another.
abbrev turned : Bool → ℕ → ℕ → ℕ → Gcf → Gcf
turned last n rest size gcf = record gcf {
  remaining = rest;
  wp = 0;
  ascii = set gcf.ascii 0 0;
  effects =
      gcf.effects
      ++ wrote (take size (drop (14 + n * 256) gcf.file.fcontent)) ∷ []
      ++ set_timeout (if last then 25600 else 2000) ∷ [];
  state = if last then State.v1_program_validate else gcf.state;
}

-- The upload waits for a page, and the firmware is in the file's buffer.
pub record IsPaging (gcf : Gcf) : Type 0 where
  pub uploading : gcf.state ≡ State.v1_program_upload
  pub small : gcf.file.file_size < 2 ^ 32
  pub stored : 14 + gcf.file.file_size ≤ length gcf.file.fcontent

module _ (fuel : ℕ) (p : Platform) (line_open : p.line_open ≡ true) where
  page_turned :
      (gcf : Gcf) (n rest size : ℕ) (last : Bool)
      → IsPaging gcf
      → n * 256 < gcf.file.file_size
      → gcf.file.file_size - n * 256 ≡ rest
      → min 256 rest ≡ size
      → (rest == size) ≡ last
      → handle (suc fuel) p Event.rx_ascii (asked gcf n)
        ≡ some (turned last n rest size (asked gcf n))
  page_turned gcf n rest size last h inside er es el =
      v1_page_served fuel p (asked gcf n) n line_open
        (record {
          uploading = h.uploading;
          whole = omega arith;
          command = refl;
          low_byte = refl;
          high_byte = refl;
          end_mark = refl;
        })
        inside h.small h.stored
      ∙ ap (λ r. some (page_written n r (min 256 r) (asked gcf n))) er
      ∙ ap (λ s. some (page_written n rest s (asked gcf n))) es
      ∙ ap (λ b. some (turned b n rest size (asked gcf n))) el

  abbrev Printed : Gcf → ℕ → ℕ → Type 0
  Printed gcf n count =
      (gcf' : Gcf) × (page_requests (suc fuel) p n count gcf ≡ some gcf')
      × (gcf'.state ≡ State.v1_program_validate)
      × (written gcf'.effects
          ≡ written gcf.effects ++ file_bytes gcf (14 + n * 256) (gcf.file.file_size - n * 256))

  pages_rest :
      (k : ℕ) (gcf : Gcf) (n : ℕ)
      → IsPaging gcf
      → (n + k) * 256 < gcf.file.file_size
      → gcf.file.file_size ≤ (n + k + 1) * 256
      → Printed gcf n (suc k)
  unfolding page_requests
  pages_rest zero gcf n h inside ends =
      let rest = gcf.file.file_size - n * 256 in
      (
        turned true n rest rest (asked gcf n),
        ap (λ o. elim o [ none ↦ none | some g ↦ some g ])
            (page_turned gcf n rest rest true h (omega arith) refl (omega arith) (ground arith)),
        refl,
        page_effects gcf.effects (file_bytes gcf (14 + n * 256) rest) 25600,
      )
  pages_rest (suc k) gcf n h inside ends =
      let rest = gcf.file.file_size - n * 256 in
      let next = turned false n rest 256 (asked gcf n) in
      let (gcf', run, state, sent) =
        pages_rest k next (suc n)
          (record { uploading = h.uploading; small = h.small; stored = h.stored }) (omega arith)
          (omega arith) in
      (
        gcf',
        ap (λ o. elim o [ none ↦ none | some g ↦ page_requests (suc fuel) p (suc n) (suc k) g ])
              (page_turned gcf n rest 256 false h (omega arith) refl (omega arith) (ground arith))
            ∙ run,
        state,
        sent
            ∙ ap (λ t. t ++ file_bytes gcf (14 + suc n * 256) (gcf.file.file_size - suc n * 256))
                (page_effects gcf.effects (file_bytes gcf (14 + n * 256) 256) 2000)
            ∙ append_assoc (written gcf.effects) _ _
            ∙ ap
                (λ from.
                  written gcf.effects
                  ++ (file_bytes gcf (14 + n * 256) 256
                      ++ file_bytes gcf from (gcf.file.file_size - suc n * 256)))
                (omega arith)
            ∙ ap (λ t. written gcf.effects ++ t)
                (file_bytes-join gcf (14 + n * 256) 256 (gcf.file.file_size - suc n * 256))
            ∙ ap (λ m. written gcf.effects ++ file_bytes gcf (14 + n * 256) m) (omega arith),
      )

-- A V1 bootloader that asks for the pages of the firmware from page 0 on, each of them once and in
-- order, up to the last that holds a byte of it, is written, on an open line, exactly the firmware
-- of the file, in order and once; behind the last page the upload waits for the validation. The
-- firmware stands in the buffer of the file, has less than 2 ^ 32 bytes and at most 2 ^ 16 pages.
pub whole_v1_upload :
    (fuel : ℕ) (p : Platform) (gcf : Gcf) (k : ℕ)
    → p.line_open ≡ true
    → IsPaging gcf
    → k < 2 ^ 16
    → k * 256 < gcf.file.file_size
    → gcf.file.file_size ≤ (k + 1) * 256
    → (gcf' : Gcf) × (page_requests (suc fuel) p 0 (suc k) gcf ≡ some gcf')
      × (gcf'.state ≡ State.v1_program_validate)
      × (written gcf'.effects ≡ written gcf.effects ++ file_bytes gcf 14 gcf.file.file_size)
whole_v1_upload fuel p gcf k line_open h word inside ends =
    let (gcf', run, state, sent) =
      pages_rest fuel p line_open k gcf 0 h (omega arith) (omega arith) in
    (gcf', run, state, sent ∙ ap (λ m. written gcf.effects ++ file_bytes gcf 14 m) (omega arith))
