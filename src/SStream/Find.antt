-- ===== src/SStream/Find.antt =====
-- U_sstream_find and U_sstream_starts_with (u_sstream.c) against what it means to occur in a text.
use gcfflashero.Base.{
  ℕ, zero, suc, ◌+◌, ◌-◌, ◌≤◌, ◌<◌, ◌≡◌, ◌⊎◌, inl, inr, refl, arith, true, false, ◌&&◌, Option,
  some, none, List, [], ◌∷◌, length, get_or, ltb, leb, ◌==◌, Bool-cases, Option-cases, ==_iff,
  subst, sym,
}
use gcfflashero.SStream.{SStream, match_count, find_loop, find}

-- The text stands in the memory at `p`.
abbrev pub Matches : List ℕ → ℕ → List ℕ → Type 0
Matches mem p [] = Unit
Matches mem p (c ∷ cs) = (get_or mem p 0 ≡ c) × Matches mem (p + 1) cs

-- The text stands in the stream at `p`, inside its length, and nowhere between `start` and there.
pub record IsFirst (ss : SStream) (needle : List ℕ) (start p : ℕ) : Type 0 where
  pub from_start : start ≤ p
  pub in_stream : p < ss.len
  pub whole : p + length needle ≤ ss.len
  pub matches : Matches ss.str p needle
  pub first : (q : ℕ) → start ≤ q → q < p → ¬ Matches ss.str q needle

-- The text stands nowhere in the stream from `start` on.
abbrev pub IsAbsent : SStream → List ℕ → ℕ → Type 0
IsAbsent ss needle start =
    (q : ℕ) → start ≤ q → q < ss.len → q + length needle ≤ ss.len → ¬ Matches ss.str q needle

match_count_le : (mem : List ℕ) (p : ℕ) (needle : List ℕ) → match_count mem p needle ≤ length needle
unfolding match_count
match_count_le mem p [] = omega arith
match_count_le mem p (c ∷ cs) = ground (arith, match_count_le mem (p + 1) cs)

match_count-Matches :
    (mem : List ℕ) (p : ℕ) (needle : List ℕ)
    → match_count mem p needle ≡ length needle
    → Matches mem p needle
unfolding match_count
match_count-Matches mem p [] e = tt
match_count-Matches mem p (c ∷ cs) e = ground (arith, match_count-Matches mem (p + 1) cs)

pub Matches-match_count :
    (mem : List ℕ) (p : ℕ) (needle : List ℕ)
    → Matches mem p needle
    → match_count mem p needle ≡ length needle
unfolding match_count
Matches-match_count mem p [] m = refl
Matches-match_count mem p (c ∷ cs) m = ground (arith, Matches-match_count mem (p + 1) cs m.1, m.0)

-- What a search from `pos` finds.
abbrev Searched : SStream → List ℕ → ℕ → Option ℕ → Type 0
Searched ss needle pos none = IsAbsent ss needle pos
Searched ss needle pos (some p) = IsFirst ss needle pos p

module _ (ss : SStream) (needle : List ℕ) (pos : ℕ) where
  IsAbsent-end :
      (ltb pos ss.len && leb (length needle) (ss.len - pos)) ≡ false → IsAbsent ss needle pos
  IsAbsent-end e q from inside fits = absurd (ground arith)

  here :
      (ltb pos ss.len && leb (length needle) (ss.len - pos)) ≡ true
      → match_count ss.str pos needle ≡ length needle
      → IsFirst ss needle pos pos
  here e m = record {
    from_start = omega arith;
    in_stream = ground arith;
    whole = ground arith;
    matches = match_count-Matches ss.str pos needle m;
    first = λ q from below. absurd (omega arith);
  }

  later_too :
      ¬ Matches ss.str pos needle
      → (q : ℕ) → pos ≤ q
      → (pos + 1 ≤ q → ¬ Matches ss.str q needle)
      → ¬ Matches ss.str q needle
  later_too differs q from later match =
      let either : (pos ≡ q) ⊎ (pos + 1 ≤ q) = ground arith in
      elim either [
        | inl same ↦ differs (subst (λ p. Matches ss.str p needle) (sym same) match)
        | inr past ↦ later past match
      ]

  not_here :
      ¬ Matches ss.str pos needle
      → (found : Option ℕ) → Searched ss needle (pos + 1) found
      → Searched ss needle pos found
  not_here differs none later =
      λ q from inside fits. later_too differs q from (λ past. later q past inside fits)
  not_here differs (some p) later = record {
    from_start = omega (arith, later.from_start);
    in_stream = later.in_stream;
    whole = later.whole;
    matches = later.matches;
    first = λ q from below. later_too differs q from (λ past. later.first q past below);
  }

find_loop_lem :
    (fuel : ℕ) (ss : SStream) (needle : List ℕ) (pos : ℕ)
    → ss.len ≤ fuel + pos
    → Searched ss needle pos (find_loop fuel ss needle pos)
unfolding find_loop
find_loop_lem zero ss needle pos enough = λ q from inside fits match. absurd (omega arith)
find_loop_lem (suc fuel) ss needle pos enough =
    elim (Bool-cases (ltb pos ss.len && leb (length needle) (ss.len - pos))) [
      | inl e ↦ elim (Bool-cases (match_count ss.str pos needle == length needle)) [
        | inl m ↦ rw (e, m) (here ss needle pos e ((==_iff _ _).0 m))
        | inr m ↦
            rw (e, m)
              (not_here ss needle pos
                (λ match. ground (arith, m, Matches-match_count ss.str pos needle match))
                (find_loop fuel ss needle (pos + 1))
                (find_loop_lem fuel ss needle (pos + 1) (omega arith)))
      ]
      | inr e ↦ rw e (IsAbsent-end ss needle pos e)
    ]

-- U_sstream_find moves to the first place at or behind the position where the text stands inside
-- the stream, and changes nothing else; where there is none it returns 0 and changes nothing.
pub find-IsFirst :
    (ss : SStream) (needle : List ℕ)
    → ((p : ℕ) × (find ss needle ≡ (record ss { pos = p }, true)) × IsFirst ss needle ss.pos p)
      ⊎ ((find ss needle ≡ (ss, false)) × IsAbsent ss needle ss.pos)
unfolding find
find-IsFirst ss needle = elim (Option-cases (find_loop (ss.len - ss.pos) ss needle ss.pos)) [
  | inl e ↦ inr (rw (find, e) refl, subst (Searched ss needle ss.pos) e searched)
  | inr (p, e) ↦ inl (p, rw (find, e) refl, subst (Searched ss needle ss.pos) e searched)
]
  where
    searched : Searched ss needle ss.pos (find_loop (ss.len - ss.pos) ss needle ss.pos)
    searched = find_loop_lem (ss.len - ss.pos) ss needle ss.pos (omega arith)
