-- ===== src/SStream/Copied.antt =====
-- What the loops of u_sstream.c that copy a text leave in the buffer.
use gcfflashero.Base.{
  ℕ, Bool, suc, ◌+◌, ◌^◌, ◌≤◌, ◌<◌, ◌≡◌, sym, ap, ◌∙◌, arith, Bool-cases, inl, inr, true, false,
  List, [], ◌∷◌, ◌++◌, append-nil, append_assoc, ltb, length, get_or, set, length-set,
  get_or-set_self, get_or-set_ne, take, take-suc-set, take-set_ge, u32, if◌then◌else◌, ◌⊎◌,
}
use gcfflashero.SStream.{SStream, ok, err_no_space, is_ok, room, copy_str, put_str}

-- A text and its NUL stand in the buffer at `pos`, in place of what was there; nothing else changed.
pub record Copied (mem mem' : List ℕ) (pos : ℕ) (text : List ℕ) : Type 0 where
  pub size : length mem' ≡ length mem
  pub prefix : take (pos + length text) mem' ≡ take pos mem ++ text
  pub nul : get_or mem' (pos + length text) 0 ≡ 0
  pub rest : (i : ℕ) → pos + length text < i → get_or mem' i 0 ≡ get_or mem i 0

pub copy_str-Copied :
    (text mem : List ℕ) (pos : ℕ)
    → pos + length text < length mem
    → Copied mem (copy_str mem pos text) pos text
unfolding copy_str
copy_str-Copied [] mem pos fits =
    let here : pos + 0 ≡ pos = omega arith in
    record {
      size = length-set mem pos 0;
      prefix =
          ap (λ n. take n (set mem pos 0)) here
          ∙ take-set_ge pos pos mem 0 (omega arith)
          ∙ sym (append-nil (take pos mem));
      nul = ap (λ n. get_or (set mem pos 0) n 0) here ∙ get_or-set_self mem pos 0 0 (omega arith);
      rest = λ i behind. get_or-set_ne mem pos i 0 0 (λ e. omega arith);
    }
copy_str-Copied (c ∷ cs) mem pos fits =
    let step : pos + suc (length cs) ≡ pos + 1 + length cs = omega arith in
    let more =
      copy_str-Copied cs (set mem pos c) (pos + 1) (omega (arith, length-set {0} mem pos c)) in
    let one : pos + 1 ≡ suc pos = omega arith in
    record {
      size = more.size ∙ length-set mem pos c;
      prefix =
          ap (λ n. take n (copy_str (set mem pos c) (pos + 1) cs)) step
          ∙ more.prefix
          ∙ ap (λ n. take n (set mem pos c) ++ cs) one
          ∙ ap (λ t. t ++ cs) (take-suc-set pos mem c (omega arith))
          ∙ append_assoc (take pos mem) (c ∷ []) cs;
      nul = ap (λ n. get_or (copy_str (set mem pos c) (pos + 1) cs) n 0) step ∙ more.nul;
      rest = λ i behind. more.rest i (omega arith) ∙ get_or-set_ne mem pos i c 0 (λ e. omega arith);
    }

module _ (ss : SStream) (text : List ℕ) (fine : ss.status ≡ ok) where
  abbrev stored : SStream
  stored = record ss { str = copy_str ss.str ss.pos text; pos = ss.pos + length text }

  abbrev full : SStream
  full = record ss { status = err_no_space }

  put_str_by :
      (b : Bool)
      → ltb (u32 (ss.pos + length text + 1)) ss.len ≡ b
      → put_str ss text ≡ (if b then stored else full)
  unfolding put_str
  put_str_by b test =
      ap
        (λ s.
          if is_ok s
          then if ltb (u32 (ss.pos + length text + 1)) ss.len then stored else full
          else ss)
        fine
      ∙ ap (λ c. if c then stored else full) test

  pub put_str_room : ss.pos + length text + 1 < ss.len → ss.len < 2 ^ 32 → put_str ss text ≡ stored
  put_str_room room small = put_str_by true (ground arith)

-- On a sound stream without an error U_sstream_put_str puts the text and a NUL at the position and
-- moves behind the text, changing no other byte, where a byte is left behind the NUL; elsewhere it
-- sets the status and does nothing else.
pub put_str_lem :
    (ss : SStream) (text : List ℕ)
    → ss.status ≡ ok
    → length ss.str ≡ ss.len
    → ss.pos + length text + 1 < 2 ^ 32
    → ((ss.pos + length text + 1 < ss.len)
        × ((mem : List ℕ) × Copied ss.str mem ss.pos text
            × (put_str ss text ≡ record ss { str = mem; pos = ss.pos + length text })))
      ⊎ ((ss.len ≤ ss.pos + length text + 1)
          × (put_str ss text ≡ record ss { status = err_no_space }))
put_str_lem ss text fine sized small = elim (Bool-cases (ltb (ss.pos + length text + 1) ss.len)) [
  | inl e ↦ inl (
    ground arith,
    (
      copy_str ss.str ss.pos text,
      copy_str-Copied text ss.str ss.pos (ground arith),
      put_str_by ss text fine true (ground arith),
    ),
  )
  | inr e ↦ inr (ground arith, put_str_by ss text fine false (ground arith))
]
