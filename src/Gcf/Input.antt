-- ===== src/Gcf/Input.antt =====
-- gcf.c: the text buffer that GCF_Received fills.
use gcfflashero.Base.{
  ℕ, ◌+◌, ◌-◌, ◌≤◌, ◌≡◌, ◌∙◌, arith, Bool-cases, inl, inr, List, [], ◌∷◌, ltb, length, length-set,
  get_or, get_or-set_self, set,
}
use gcfflashero.Gcf.{Gcf}
use gcfflashero.Gcf.Machine.{put_char, put_chars}

-- The text in the buffer of 512 bytes ends with a NUL inside it.
pub record IsText (gcf : Gcf) : Type 0 where
  pub size : length gcf.ascii ≡ 512
  pub bound : gcf.wp ≤ 510
  pub ended : get_or gcf.ascii gcf.wp 0 ≡ 0

put_char-IsText : (gcf : Gcf) (ch : ℕ) → IsText gcf → IsText (put_char gcf ch)
put_char-IsText gcf ch t = elim (Bool-cases (ltb gcf.wp (512 - 2))) [
  | inl e ↦ rw e (record {
    size =
        length-set (set gcf.ascii gcf.wp ch) (gcf.wp + 1) 0
        ∙ length-set gcf.ascii gcf.wp ch
        ∙ t.size;
    bound = ground arith;
    ended =
        get_or-set_self (set gcf.ascii gcf.wp ch) (gcf.wp + 1) 0 0
          (ground (arith, length-set {0} gcf.ascii gcf.wp ch, t.size));
  })
  | inr e ↦ rw e (record {
    size = length-set gcf.ascii 0 0 ∙ t.size;
    bound = omega arith;
    ended = get_or-set_self gcf.ascii 0 0 0 (omega (arith, t.size));
  })
]

-- The text in the buffer, which lies inside it and ends with a NUL, still does so behind any
-- input, however long.
pub put_chars-IsText :
    (input : List ℕ) (gcf : Gcf) (count : ℕ) → IsText gcf → IsText (put_chars gcf input count).0
unfolding put_chars
put_chars-IsText [] gcf count t = t
put_chars-IsText (ch ∷ rest) gcf count t =
    put_chars-IsText rest (put_char gcf ch) _ (put_char-IsText gcf ch t)
