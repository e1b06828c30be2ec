-- ===== src/Posix/Ring.antt =====
-- The ring of main_posix.c as an array: the bytes between the read and the write position.
use gcfflashero.Base.{
  ℕ, zero, suc, ◌+◌, ◌-◌, ◌%◌, ◌^◌, ◌≤◌, ◌<◌, ◌≡◌, ◌≢◌, refl, sym, ap, ap₂, ◌∙◌, arith, true, false,
  ◌==◌, List, [], ◌∷◌, ◌++◌, length, get_or, get_or-set_self, get_or-set_ne, set, take, drop, u32,
}
use gcfflashero.Posix.{Posix, tx_buf_size, collect}

-- `n` bytes of a ring from the position `i` on.
unfoldable pub cells : List ℕ → ℕ → ℕ → List ℕ
cells mem i zero = []
cells mem i (suc n) = get_or mem (i % tx_buf_size) 0 ∷ cells mem (i + 1) n

-- How many bytes wait: the distance of the positions, which are 32-bit numbers.
abbrev pub waiting_count : Posix → ℕ
waiting_count pl = (pl.tx_wp + 2 ^ 32 - pl.tx_rp) % tx_buf_size

-- The bytes that wait to be sent, in order.
abbrev pub waiting : Posix → List ℕ
waiting pl = cells pl.txbuf pl.tx_rp (waiting_count pl)

-- The buffer keeps its size, and the positions are unsigned numbers.
pub record IsRing (pl : Posix) : Type 0 where
  pub size : length pl.txbuf ≡ tx_buf_size
  pub read_pos : pl.tx_rp < 2 ^ 32
  pub write_pos : pl.tx_wp < 2 ^ 32

pub length-cells : (mem : List ℕ) (i n : ℕ) → length (cells mem i n) ≡ n
unfolding cells
length-cells mem i zero = refl
length-cells mem i (suc n) = ap suc (length-cells mem (i + 1) n)

-- Only the slot of the position counts.
pub cells-mod :
    (mem : List ℕ) (i j n : ℕ) → i % tx_buf_size ≡ j % tx_buf_size → cells mem i n ≡ cells mem j n
unfolding cells
cells-mod mem i j zero e = refl
cells-mod mem i j (suc n) e =
    ap₂ (λ k t. get_or mem k 0 ∷ t) e (cells-mod mem (i + 1) (j + 1) n (omega arith))

pub cells-snoc :
    (mem : List ℕ) (i n : ℕ)
    → cells mem i (suc n) ≡ cells mem i n ++ get_or mem ((i + n) % tx_buf_size) 0 ∷ []
unfolding cells
cells-snoc mem i zero = ap (λ k. get_or mem (k % tx_buf_size) 0 ∷ []) (omega arith)
cells-snoc mem i (suc n) =
    let shifted : i + 1 + n ≡ i + suc n = omega arith in
    ap (λ t. get_or mem (i % tx_buf_size) 0 ∷ t)
      (cells-snoc mem (i + 1) n
        ∙ ap (λ k. cells mem (i + 1) n ++ get_or mem (k % tx_buf_size) 0 ∷ []) shifted)

-- A write into the slot behind the bytes that wait does not touch them.
pub cells-set :
    (mem : List ℕ) (i n k v : ℕ)
    → k % tx_buf_size ≡ (i + n) % tx_buf_size
    → n < tx_buf_size
    → (m : ℕ) (j : ℕ) → j + m ≡ n
    → cells (set mem (k % tx_buf_size) v) (i + j) m ≡ cells mem (i + j) m
unfolding cells
cells-set mem i n k v e small zero j count = refl
cells-set mem i n k v e small (suc m) j count =
    let other : k % tx_buf_size ≢ (i + j) % tx_buf_size = λ same. omega arith in
    let shifted : i + j + 1 ≡ i + (j + 1) = omega arith in
    ap₂ ◌∷◌ (get_or-set_ne mem (k % tx_buf_size) ((i + j) % tx_buf_size) v 0 other) (
      ap (λ t. cells (set mem (k % tx_buf_size) v) t m) shifted
      ∙ cells-set mem i n k v e small m (j + 1) (omega arith)
      ∙ ap (λ t. cells mem t m) (sym shifted))

-- Behind the bytes that wait, one more.
pub cells-put :
    (mem : List ℕ) (i n k v : ℕ)
    → length mem ≡ tx_buf_size
    → k % tx_buf_size ≡ (i + n) % tx_buf_size
    → n < tx_buf_size
    → cells (set mem (k % tx_buf_size) v) i (suc n) ≡ cells mem i n ++ v ∷ []
cells-put mem i n k v size e small =
    let start : i + 0 ≡ i = omega arith in
    let kept = cells-set mem i n k v e small n 0 (omega arith) in
    cells-snoc (set mem (k % tx_buf_size) v) i n
    ∙ ap₂ (λ t c. t ++ c ∷ [])
        (ap (λ t. cells (set mem (k % tx_buf_size) v) t n) (sym start)
          ∙ kept
          ∙ ap (λ t. cells mem t n) start)
        (ap (λ t. get_or (set mem (k % tx_buf_size) v) t 0) (sym e)
          ∙ get_or-set_self mem (k % tx_buf_size) v 0 (omega (arith, size)))

pub drop-cells :
    (k : ℕ) (mem : List ℕ) (i n : ℕ) → k ≤ n → drop k (cells mem i n) ≡ cells mem (i + k) (n - k)
unfolding cells
drop-cells zero mem i n h = ap₂ (cells mem) (omega arith) (omega arith)
drop-cells (suc k) mem i zero h = absurd (omega arith)
drop-cells (suc k) mem i (suc n) h =
    drop-cells k mem (i + 1) n (omega arith) ∙ ap₂ (cells mem) (omega arith) (omega arith)

-- The loop of PROT_Flush collects what waits, up to its number of rounds.
collect-from :
    (rounds : ℕ) (pl : Posix) (len n : ℕ)
    → IsRing pl
    → len + n ≡ waiting_count pl
    → collect rounds pl len ≡ take rounds (cells pl.txbuf (pl.tx_rp + len) n)
unfolding collect cells
collect-from zero pl len n h e = refl
collect-from (suc rounds) pl len zero h e =
    let here : (pl.tx_wp % tx_buf_size == u32 (pl.tx_rp + len) % tx_buf_size) ≡ true =
      ground (arith, h) in
    rw here refl
collect-from (suc rounds) pl len (suc n) h e =
    let more : (pl.tx_wp % tx_buf_size == u32 (pl.tx_rp + len) % tx_buf_size) ≡ false =
      ground (arith, h) in
    let slot : u32 (pl.tx_rp + len) % tx_buf_size ≡ (pl.tx_rp + len) % tx_buf_size = omega arith in
    let shifted : pl.tx_rp + (len + 1) ≡ pl.tx_rp + len + 1 = omega arith in
    rw more (
      ap₂ (λ k t. get_or pl.txbuf k 0 ∷ t) slot
        (collect-from rounds pl (len + 1) n h (omega arith)
          ∙ ap (λ t. take rounds (cells pl.txbuf t n)) shifted))

pub collect-waiting :
    (rounds : ℕ) (pl : Posix) → IsRing pl → collect rounds pl 0 ≡ take rounds (waiting pl)
collect-waiting rounds pl h =
    let start : pl.tx_rp + 0 ≡ pl.tx_rp = omega arith in
    collect-from rounds pl 0 (waiting_count pl) h (omega arith)
    ∙ ap (λ t. take rounds (cells pl.txbuf t (waiting_count pl))) start
