-- ===== src/Mem.antt =====
-- u_mem.c: U_memcpy and U_bzero on a list of bytes, from an index on.
use gcfflashero.Base.{
  ℕ, zero, suc, ◌+◌, ◌≤◌, ◌≡◌, refl, sym, ap, ap₂, ◌∙◌, append-nil, arith, List, [], ◌∷◌, ◌++◌,
  append_assoc, length, length-append, set, drop, set-append_right,
}

unfoldable pub memcpy : List ℕ → ℕ → List ℕ → List ℕ
memcpy mem to [] = mem
memcpy mem to (c ∷ cs) = memcpy (set mem to c) (to + 1) cs

pub bzero : List ℕ → ℕ → ℕ → List ℕ
bzero mem from zero = mem
bzero mem from (suc n) = bzero (set mem from 0) (from + 1) n

-- U_memcpy puts the bytes behind what stands before the index, and leaves the rest.
pub memcpy_lem :
    (front mem bytes : List ℕ)
    → length bytes ≤ length mem
    → memcpy (front ++ mem) (length front) bytes ≡ front ++ bytes ++ drop (length bytes) mem
unfolding memcpy
memcpy_lem front mem [] room = rw append-nil refl
memcpy_lem front [] (c ∷ cs) room = absurd (omega arith)
memcpy_lem front (m ∷ mem) (c ∷ cs) room =
    let one : front ++ c ∷ mem ≡ front ++ c ∷ [] ++ mem = sym (append_assoc front (c ∷ []) mem) in
    let two : front ++ c ∷ [] ++ cs ≡ front ++ c ∷ cs = append_assoc front (c ∷ []) cs in
    let at : length front + 1 ≡ length (front ++ c ∷ []) =
      omega (arith, length-append front (c ∷ [])) in
    rw (set-append_right front mem m c) (
      ap₂ (λ t n. memcpy t n cs) one at
      ∙ memcpy_lem (front ++ c ∷ []) mem cs (omega arith)
      ∙ ap (λ t. t ++ drop (length cs) mem) two)
