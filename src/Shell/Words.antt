-- ===== src/Shell/Words.antt =====
-- The arguments of a command line, kernel/shell/shell.c: the first eight words of the line.
use simpleos.Common.{
  ℕ, zero, suc, ◌≡◌, refl, arith, Bool, true, false, if◌then◌else◌, List, [], ◌∷◌, take, Bool-cases,
  inl, inr, ap, sym, ◌∙◌,
}
use simpleos.Shell.{
  is_space, is_empty, skip_spaces, word, after_word, step_over, split_args, arguments,
}

-- A character before the words of the rest of the line: it begins a word of its own if the next
-- character is a space or the end, and stands in the first word otherwise.
abbrev pub prepend : ℕ → List (List ℕ) → List (List ℕ)
prepend c [] = (c ∷ []) ∷ []
prepend c (w ∷ ws) = (c ∷ w) ∷ ws

abbrev pub begins_with_space : List ℕ → Bool
begins_with_space [] = true
begins_with_space (c ∷ cs) = is_space c

-- The words of a line, by the characters from the end.
unfoldable pub words : List ℕ → List (List ℕ)
words [] = []
words (c ∷ cs) =
    let rest = words cs in
    if is_space c then rest else if begins_with_space cs then (c ∷ []) ∷ rest else prepend c rest

words-skip_spaces : (line : List ℕ) → words (skip_spaces line) ≡ words line
unfolding words skip_spaces
words-skip_spaces [] = refl
words-skip_spaces (c ∷ cs) = elim (Bool-cases (is_space c)) [
  | inl space ↦ ground (arith, space, words-skip_spaces cs)
  | inr letter ↦ ground (arith, letter)
]

-- What is left of a line without its first spaces begins with a letter.
skip_spaces-letter :
    (line : List ℕ) (c : ℕ) (cs : List ℕ) → skip_spaces line ≡ c ∷ cs → is_space c ≡ false
unfolding skip_spaces
skip_spaces-letter [] c cs e = ground (arith, e)
skip_spaces-letter (d ∷ ds) c cs e = elim (Bool-cases (is_space d)) [
  | inl space ↦ skip_spaces-letter ds c cs (ground (arith, e, space))
  | inr letter ↦ ground (arith, e, letter)
]

words-word :
    (c : ℕ) (cs : List ℕ)
    → is_space c ≡ false
    → words (c ∷ cs) ≡ word (c ∷ cs) ∷ words (after_word (c ∷ cs))
unfolding words word after_word
words-word c [] letter = ground (arith, letter)
words-word c (d ∷ ds) letter = elim (Bool-cases (is_space d)) [
  | inl space ↦ ground (arith, letter, space)
  | inr more ↦ ground (arith, letter, more, words-word d ds more)
]

words-step_over : (line : List ℕ) → words (step_over (after_word line)) ≡ words (after_word line)
unfolding words after_word
words-step_over [] = refl
words-step_over (c ∷ cs) = elim (Bool-cases (is_space c)) [
  | inl space ↦ ground (arith, space)
  | inr letter ↦ ground (arith, letter, words-step_over cs)
]

-- One round of the loop, by what is left behind the first spaces.
split_round :
    (args : ℕ) (line start : List ℕ)
    → skip_spaces line ≡ start
    → split_args args (step_over (after_word start))
      ≡ take args (words (step_over (after_word start)))
    → (if is_empty start then [] else word start ∷ split_args args (step_over (after_word start)))
      ≡ take (suc args) (words line)
unfolding words
split_round args line [] e rest = ground (arith, e, words-skip_spaces line)
split_round args line (c ∷ cs) e rest =
    (let letter = skip_spaces-letter line c cs e in
      ap (λ ws. word (c ∷ cs) ∷ ws) (rest ∙ ap (take args) (words-step_over (c ∷ cs)))
      ∙ ap (take (suc args))
          (sym (words-word c cs letter) ∙ ap words (sym e) ∙ words-skip_spaces line))

split_args_lem : (args : ℕ) (line : List ℕ) → split_args args line ≡ take args (words line)
unfolding split_args
split_args_lem zero line = refl
split_args_lem (suc args) line =
    split_round args line (skip_spaces line) refl
      (split_args_lem args (step_over (after_word (skip_spaces line))))

-- The arguments of a line are its first eight words, the rest of it being left out; a word is a longest
-- stretch without blanks and tabs.
pub arguments-words : (line : List ℕ) → arguments line ≡ take 8 (words line)
unfolding arguments
arguments-words line = split_args_lem 8 line
