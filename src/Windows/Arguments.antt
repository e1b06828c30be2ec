-- ===== src/Windows/Arguments.antt =====
-- main_windows.c: mainCRTStartup, which copies the command line and cuts it into arguments.
use gcfflashero.Base.{
  ℕ, zero, suc, ◌≤◌, ◌<◌, ◌≡◌, refl, subst, ap, ◌∙◌, arith, Bool, true, false, not, ◌&&◌, Option,
  none, some, List, [], ◌∷◌, ◌++◌, length, length-append, take, take_all, ◌==◌, if◌then◌else◌,
}

abbrev pub max_cmdline_args : ℕ
max_cmdline_args = 16

abbrev pub max_cmdline_len : ℕ
max_cmdline_len = 512

-- What GetCommandLineA gives is copied, without its NUL.
abbrev pub copied_line : List ℕ → List ℕ
copied_line line = take 511 line

-- The quote behind the character.
abbrev pub quote_after : Bool → ℕ → Bool
quote_after quote c = if c == b'"' then not quote else quote

-- A blank outside of quotes ends an argument.
abbrev pub ends_argument : Bool → ℕ → Bool
ends_argument quote c = c == b' ' && not quote

-- The inner loop: an argument, the quote, and what is left of the line.
unfoldable pub next_argument : Bool → List ℕ → List ℕ × Bool × List ℕ
next_argument quote [] = ([], quote, [])
next_argument quote (c ∷ cs) =
    let quote = quote_after quote c in
    let (arg, last, rest) = next_argument quote cs in
    if ends_argument quote c then ([], quote, cs) else (c ∷ arg, last, rest)

-- The outer loop, with room for some more arguments.
unfoldable pub split_arguments : ℕ → Bool → List ℕ → List (List ℕ)
split_arguments zero quote line = []
split_arguments (suc room) quote [] = []
split_arguments (suc room) quote (c ∷ cs) =
    let (arg, quote, rest) = next_argument quote (c ∷ cs) in arg ∷ split_arguments room quote rest

-- What main() gets as `argv`.
pub arguments : List ℕ → List (List ℕ)
arguments line = split_arguments max_cmdline_args false (copied_line line)

-- The quote behind a text with no blank outside of quotes.
abbrev pub quote_behind : Bool → List ℕ → Option Bool
quote_behind quote [] = some quote
quote_behind quote (c ∷ cs) =
    let quote = quote_after quote c in
    let behind = quote_behind quote cs in if ends_argument quote c then none else behind

-- No blank outside of quotes, and the quotes in pairs.
pub record IsWord (word : List ℕ) : Type 0 where
  pub closed : quote_behind false word ≡ some false

-- Words with a blank between two of them.
abbrev pub joined : List ℕ → List (List ℕ) → List ℕ
joined word [] = word
joined word (next ∷ words) = word ++ b' ' ∷ joined next words

abbrev pub AllWords : List (List ℕ) → Type 0
AllWords [] = Unit
AllWords (word ∷ words) = IsWord word × AllWords words

abbrev quote_or_true : Option Bool → Bool
quote_or_true none = true
quote_or_true (some quote) = quote

-- Nothing ends a word before its end.
goes_on :
    (b : Bool) (behind : Option Bool)
    → (if b then none else behind) ≡ some false
    → (b ≡ false) × (behind ≡ some false)
goes_on true behind e = absurd (subst IsQuoted (ap quote_or_true e) tt)
  where
    IsQuoted : Bool → Type 0
    IsQuoted true = Unit
    IsQuoted false = ⊥
goes_on false behind e = (refl, e)

next_argument_blank :
    (quote : Bool) (rest : List ℕ)
    → quote ≡ false
    → next_argument quote (b' ' ∷ rest) ≡ ([], false, rest)
unfolding next_argument
next_argument_blank quote rest e = rw e refl

next_argument_word :
    (quote : Bool) (word rest : List ℕ)
    → quote_behind quote word ≡ some false
    → next_argument quote (word ++ b' ' ∷ rest) ≡ (word, false, rest)
unfolding next_argument
next_argument_word quote [] rest e = next_argument_blank quote rest (ap quote_or_true e)
next_argument_word quote (c ∷ cs) rest e =
    let (goes, behind) = goes_on (ends_argument (quote_after quote c) c) _ e in
    rw goes
      (ap (λ r. (c ∷ r.0, r.1, r.2)) (next_argument_word (quote_after quote c) cs rest behind))

next_argument_last :
    (quote : Bool) (word : List ℕ)
    → quote_behind quote word ≡ some false
    → next_argument quote word ≡ (word, false, [])
unfolding next_argument
next_argument_last quote [] e = ap (λ q. ([], q, [])) (ap quote_or_true e)
next_argument_last quote (c ∷ cs) e =
    let (goes, behind) = goes_on (ends_argument (quote_after quote c) c) _ e in
    rw goes (ap (λ r. (c ∷ r.0, r.1, r.2)) (next_argument_last (quote_after quote c) cs behind))

abbrev cut : ℕ → List ℕ × Bool × List ℕ → List (List ℕ)
cut room (arg, quote, rest) = arg ∷ split_arguments room quote rest

-- A line that is not at its end is cut.
split_arguments-cut :
    (room : ℕ) (quote : Bool) (line : List ℕ)
    → 1 ≤ length line
    → split_arguments (suc room) quote line ≡ cut room (next_argument quote line)
unfolding split_arguments
split_arguments-cut room quote [] h = absurd (omega arith)
split_arguments-cut room quote (c ∷ cs) h = refl

-- The last word is not empty: nothing behind the last blank is no argument.
abbrev pub EndsFull : List ℕ → List (List ℕ) → Type 0
EndsFull word [] = 1 ≤ length word
EndsFull word (next ∷ words) = EndsFull next words

split_arguments-joined :
    (room : ℕ) (word : List ℕ) (words : List (List ℕ))
    → IsWord word
    → AllWords words
    → EndsFull word words
    → length words < room
    → split_arguments room false (joined word words) ≡ word ∷ words
unfolding split_arguments
split_arguments-joined zero word words h hs full fits = absurd (omega arith)
split_arguments-joined (suc zero) word [] h hs full fits =
    split_arguments-cut zero false word full
    ∙ ap (cut zero) (next_argument_last false word h.closed)
split_arguments-joined (suc (suc room)) word [] h hs full fits =
    split_arguments-cut (suc room) false word full
    ∙ ap (cut (suc room)) (next_argument_last false word h.closed)
split_arguments-joined (suc room) word (next ∷ words) h (h', hs) full fits =
    let long = length-append word (b' ' ∷ joined next words) in
    split_arguments-cut room false (joined word (next ∷ words)) (omega arith)
    ∙ ap (cut room) (next_argument_word false word (joined next words) h.closed)
    ∙ ap (λ rest. word ∷ rest) (split_arguments-joined room next words h' hs full (omega arith))

-- At most 16 words in a line of less than 512 characters, with one blank between two of them, are
-- cut by mainCRTStartup into these words. A word has no blank outside of quotes, and its quotes
-- come in pairs; they stay in the argument. The last word is not empty.
pub arguments-joined :
    (word : List ℕ) (words : List (List ℕ))
    → IsWord word
    → AllWords words
    → EndsFull word words
    → length words < max_cmdline_args
    → length (joined word words) < max_cmdline_len
    → arguments (joined word words) ≡ word ∷ words
unfolding arguments
arguments-joined word words h hs full fits short =
    ap (split_arguments max_cmdline_args false) (take_all 511 (joined word words) (omega arith))
    ∙ split_arguments-joined max_cmdline_args word words h hs full fits
