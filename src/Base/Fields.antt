-- ===== src/Base/Fields.antt =====
-- Two and four consecutive bytes of an array, written and read.
use Prim.Native.Nat.{ℕ, ◌+◌, ◌≤◌, ◌<◌}
use mathlib.Core.Path.{◌≡◌, sym, ap, ◌∙◌}
use mathlib.Core.Logic.{◌⊎◌}
use mathlib.Core.List.{List}
use native.Mathlib.Omega.{arith}
use gcfflashero.Base.Lists.{length, get_or, set, length-set, get_or-set_self, get_or-set_ne}

abbrev pub write2 : List ℕ → ℕ → ℕ → ℕ → List ℕ
write2 mem p a b = set (set mem p a) (p + 1) b

abbrev pub write4 : List ℕ → ℕ → ℕ → ℕ → ℕ → ℕ → List ℕ
write4 mem p a b c d = set (set (set (set mem p a) (p + 1) b) (p + 2) c) (p + 3) d

-- The bytes of `mem'` at `p` and after, and those of `mem` elsewhere.
pub record Field2 (mem mem' : List ℕ) (p a b : ℕ) : Type 0 where
  pub size : length mem' ≡ length mem
  pub byte0 : get_or mem' p 0 ≡ a
  pub byte1 : get_or mem' (p + 1) 0 ≡ b
  pub rest : (i : ℕ) → (i < p) ⊎ (p + 2 ≤ i) → get_or mem' i 0 ≡ get_or mem i 0

pub record Field4 (mem mem' : List ℕ) (p a b c d : ℕ) : Type 0 where
  pub size : length mem' ≡ length mem
  pub byte0 : get_or mem' p 0 ≡ a
  pub byte1 : get_or mem' (p + 1) 0 ≡ b
  pub byte2 : get_or mem' (p + 2) 0 ≡ c
  pub byte3 : get_or mem' (p + 3) 0 ≡ d
  pub rest : (i : ℕ) → (i < p) ⊎ (p + 4 ≤ i) → get_or mem' i 0 ≡ get_or mem i 0

module _ (mem : List ℕ) (p a b : ℕ) where
  pub write2-Field2 : p + 2 ≤ length mem → Field2 mem (write2 mem p a b) p a b
  write2-Field2 room = record {
    size = length-set (set mem p a) (p + 1) b ∙ length-set mem p a;
    byte0 =
        get_or-set_ne (set mem p a) (p + 1) p b 0 (omega arith)
        ∙ get_or-set_self mem p a 0 (omega arith);
    byte1 = get_or-set_self (set mem p a) (p + 1) b 0 (omega (arith, length-set {0} mem p a));
    rest = λ i h.
        get_or-set_ne (set mem p a) (p + 1) i b 0 (omega arith)
        ∙ get_or-set_ne mem p i a 0 (omega arith);
  }

-- A four-byte write is a two-byte write, and then another.
pub write4-Field4 :
    (mem : List ℕ) (p a b c d : ℕ)
    → p + 4 ≤ length mem
    → Field4 mem (write4 mem p a b c d) p a b c d
write4-Field4 mem p a b c d room =
    let mid = write2 mem p a b in
    let low = write2-Field2 mem p a b (omega arith) in
    let high = write2-Field2 mid (p + 2) c d (omega (arith, low.size)) in
    let three : p + 2 + 1 ≡ p + 3 = omega arith in
    rw (← three) record {
      size = high.size ∙ low.size;
      byte0 = high.rest p (omega arith) ∙ low.byte0;
      byte1 = high.rest (p + 1) (omega arith) ∙ low.byte1;
      byte2 = high.byte0;
      byte3 = ap (λ k. get_or (write2 mid (p + 2) c d) k 0) (sym three) ∙ high.byte1;
      rest = λ i h. high.rest i (omega arith) ∙ low.rest i (omega arith);
    }
