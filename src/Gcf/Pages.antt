-- ===== src/Gcf/Pages.antt =====
-- gcf.c: what the V1 bootloader gets for a page request (ST_V1ProgramUpload).
use gcfflashero.Base.{
  ℕ, suc, ◌+◌, ◌-◌, ◌*◌, ◌/◌, ◌%◌, ◌^◌, ◌≤◌, ◌<◌, ◌≡◌, refl, ap, ◌∙◌, arith, Bool, true, false,
  none, some, [], ◌∷◌, ◌++◌, min, ltb, leb, ◌==◌, if◌then◌else◌, set, take, drop, length, u32,
}
use gcfflashero.Base.Bits.{shift-bit_or}
use gcfflashero.Gcf.{
  Gcf, Platform, Event, Act, ◌⨾◌, did, to_state, State, Substate, set_timeout, wrote, retry_later,
}
use gcfflashero.Gcf.Machine.{handle, run_state}
use gcfflashero.Gcf.Returns.{progress_shown}
use gcfflashero.Gcf.Upload.{
  ascii_at, v1_page_number, v1_end, v1_serve, v1_shown, v1_pagesize, st_v1_program_upload,
}

-- "GET", the page `n`, its low byte first, and ";" stand in `ascii`, and the upload waits for a
-- request.
pub record PageRequested (gcf : Gcf) (n : ℕ) : Type 0 where
  pub uploading : gcf.state ≡ State.v1_program_upload
  pub whole : 6 ≤ gcf.wp
  pub command : ascii_at gcf 0 ≡ b'G'
  pub low_byte : ascii_at gcf 3 ≡ n % 256
  pub high_byte : ascii_at gcf 4 ≡ n / 256
  pub end_mark : ascii_at gcf 5 ≡ b';'

-- The page `n` written, with `rest` bytes of the firmware from its start on, and the state behind it.
abbrev pub page_written : ℕ → ℕ → ℕ → Gcf → Gcf
page_written n rest size gcf = record gcf {
  remaining = rest;
  wp = 0;
  ascii = set gcf.ascii 0 0;
  effects =
      gcf.effects
      ++ wrote (take size (drop (14 + n * 256) gcf.file.fcontent)) ∷ []
      ++ set_timeout (if rest == size then 25600 else 2000) ∷ [];
  state = if rest == size then State.v1_program_validate else gcf.state;
}

page_ending :
    (last : Bool) (gcf : Gcf)
    → (if last
        then (to_state State.v1_program_validate ⨾ did (set_timeout 25600)) gcf
        else did (set_timeout 2000) gcf)
      ≡ some (record gcf {
        effects = gcf.effects ++ set_timeout (if last then 25600 else 2000) ∷ [];
        state = if last then State.v1_program_validate else gcf.state;
      })
page_ending true gcf = refl
page_ending false gcf = refl

requested_page : (gcf : Gcf) (n : ℕ) → PageRequested gcf n → v1_page_number gcf ≡ n
requested_page gcf n r =
    rw (r.low_byte, r.high_byte, shift-bit_or 8 (n / 256) (n % 256) (omega arith)) (omega arith)

module _ (p : Platform) (d : Event → Act) (line_open : p.line_open ≡ true) where
  serve_page :
      (gcf : Gcf) (n rest size : ℕ)
      → 0 < gcf.file.file_size
      → u32 (v1_end gcf + 2 ^ 32 - (14 + n * 256)) ≡ rest
      → (if ltb v1_pagesize rest then v1_pagesize else rest) ≡ size
      → (u32 (rest + 2 ^ 32 - size) == 0) ≡ (rest == size)
      → v1_serve p d (14 + n * 256) (v1_end gcf) gcf ≡ some (page_written n rest size gcf)
  serve_page gcf n rest size pos er es el =
      progress_shown (v1_shown gcf (u32 (v1_end gcf + 2 ^ 32 - (14 + n * 256)))) gcf _ pos
      ∙ simp (er, es, line_open, el) (page_ending (rest == size) _)

  page_dispatched :
      (gcf : Gcf) (n : ℕ)
      → PageRequested gcf n
      → st_v1_program_upload p d Event.rx_ascii gcf
        ≡ ((if leb (v1_end gcf) (14 + n * 256) then retry_later p else some)
              ⨾ v1_serve p d (14 + n * 256) (v1_end gcf))
            gcf
  page_dispatched gcf n r =
      let long : ltb gcf.wp 6 ≡ false = ground (arith, r.whole) in
      simp (long, r.command, r.end_mark)
        (ap
          (λ k.
            ((if leb (v1_end gcf) (14 + k * 256) then retry_later p else some)
                ⨾ v1_serve p d (14 + k * 256) (v1_end gcf))
              gcf)
          (requested_page gcf n r))

-- The V1 bootloader's request for page n, whose low byte stands before its high byte and which
-- starts below the end of the firmware, is answered, on an open line, with the bytes of the
-- firmware from 256 * n on, 256 or what is left of it. The firmware stands in the buffer of the
-- file and has less than 2 ^ 32 bytes. The page that reaches the end starts the wait for the
-- validation, any other the wait for the next request; the text buffer is emptied.
pub v1_page_served :
    (fuel : ℕ) (p : Platform) (gcf : Gcf) (n : ℕ)
    → p.line_open ≡ true
    → PageRequested gcf n
    → n * 256 < gcf.file.file_size
    → gcf.file.file_size < 2 ^ 32
    → 14 + gcf.file.file_size ≤ length gcf.file.fcontent
    → let rest = gcf.file.file_size - n * 256 in
      handle (suc fuel) p Event.rx_ascii gcf ≡ some (page_written n rest (min 256 rest) gcf)
unfolding handle
v1_page_served fuel p gcf n line_open r inside small stored =
    ap (λ s. run_state p (handle fuel p) s Event.rx_ascii gcf) r.uploading
    ∙ page_dispatched p (handle fuel p) line_open gcf n r
    ∙ simp below (
        serve_page p (handle fuel p) line_open gcf n (gcf.file.file_size - n * 256)
          (min 256 (gcf.file.file_size - n * 256)) (omega arith) (omega arith) (ground arith)
          (ground arith))
  where
    below : leb (v1_end gcf) (14 + n * 256) ≡ false
    below = ground (arith, inside)

retry_early :
    (p : Platform) (gcf : Gcf)
    → p.now < gcf.max_time
    → retry_later p gcf
      ≡ some (record gcf {
        state = State.init;
        substate = Substate.no_substate;
        effects = gcf.effects ++ set_timeout 250 ∷ [];
      })
unfolding retry_later
retry_early p gcf later =
    let early : ltb p.now gcf.max_time ≡ true = ground (arith, later) in
    rw (retry_later, early) refl

-- In a build with NDEBUG, a request for a page that starts behind the end of a firmware which is
-- not empty is answered too, on an open line: behind gcfRetry, which has scheduled the next attempt
-- because time is left, the 256 bytes at the page's place are written, which still lie inside the
-- buffer of the file, and the timeout of an upload replaces the one of the attempt.
pub v1_page_past_end :
    (fuel : ℕ) (p : Platform) (gcf : Gcf) (n : ℕ)
    → p.line_open ≡ true
    → PageRequested gcf n
    → 0 < gcf.file.file_size
    → gcf.file.file_size < n * 256
    → n < 2 ^ 16
    → 14 + n * 256 + 256 ≤ length gcf.file.fcontent
    → p.now < gcf.max_time
    → handle (suc fuel) p Event.rx_ascii gcf
      ≡ some (
          page_written n (gcf.file.file_size + 2 ^ 32 - n * 256) 256 (record gcf {
            state = State.init;
            substate = Substate.no_substate;
            effects = gcf.effects ++ set_timeout 250 ∷ [];
          }))
unfolding handle
v1_page_past_end fuel p gcf n line_open r pos outside word stored later =
    ap (λ s. run_state p (handle fuel p) s Event.rx_ascii gcf) r.uploading
    ∙ page_dispatched p (handle fuel p) line_open gcf n r
    ∙ ap (λ b. ((if b then retry_later p else some) ⨾ serve) gcf) above
    ∙ ap (λ o. elim o [ none ↦ none | some gcf' ↦ serve gcf' ]) (retry_early p gcf later)
    ∙ serve_page p (handle fuel p) line_open
        (record gcf {
          state = State.init;
          substate = Substate.no_substate;
          effects = gcf.effects ++ set_timeout 250 ∷ [];
        })
        n (gcf.file.file_size + 2 ^ 32 - n * 256) 256 pos (omega arith) (ground arith)
        (ground arith)
  where
    serve : Act
    serve = v1_serve p (handle fuel p) (14 + n * 256) (v1_end gcf)

    above : leb (v1_end gcf) (14 + n * 256) ≡ true
    above = ground (arith, outside)
