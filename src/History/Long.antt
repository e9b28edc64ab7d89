-- ===== src/History/Long.antt =====
-- Lines of 128 bytes and more in kernel/shell/history.c: the copy is cut, and the test for a
-- repetition compares the whole line with the copy.
use simpleos.Common.{
  ℕ, ◌-◌, ◌≤◌, ◌<◌, ◌≡◌, refl, arith, false, List, [], ◌∷◌, ◌++◌, some, take, get_or, length,
  length-take, length-append, ap, ◌∙◌, Bool-cases, inl, inr,
}
use simpleos.History.{History, str_equal, history_add}
use simpleos.History.Lines.{lines, IsHistory, str_equal_sound}
use simpleos.History.Add.{recent, add_line, history_add_lem}

last_append : (ls : List (List ℕ)) (l : List ℕ) → get_or (ls ++ (l ∷ [])) (length ls) [] ≡ l
last_append [] l = refl
last_append (x ∷ ls) l = last_append ls l

last_recent :
    (ls : List (List ℕ)) (l : List ℕ)
    → get_or (recent (ls ++ (l ∷ []))) (length (recent (ls ++ (l ∷ []))) - 1) [] ≡ l
last_recent [] l = refl
last_recent (x ∷ ls) l =
    ground (arith, last_append (x ∷ ls) l, last_append ls l, length-append ls (l ∷ []))

not_its_copy : (l m : List ℕ) → 127 < length l → length m ≤ 127 → str_equal m l ≡ false
not_its_copy l m long short = elim (Bool-cases (str_equal m l)) [
  | inl same ↦ ground (arith, long, short, ap length (str_equal_sound m l same))
  | inr different ↦ different
]

added_long :
    (c : ℕ) (cs : List ℕ) (ls : List (List ℕ))
    → 127 < length (c ∷ cs)
    → length (get_or ls (length ls - 1) []) ≤ 127
    → add_line (some (c ∷ cs)) ls ≡ recent (ls ++ (take 127 (c ∷ cs) ∷ []))
added_long c cs ls long short =
    rw (not_its_copy (c ∷ cs) (get_or ls (length ls - 1) []) long short) refl

-- A line of 128 or more bytes is recorded again each time it is added, its copies being equal: the
-- second of two calls of `history_add` with the line adds the copy behind the first one's, where a
-- shorter line would be recognised as a repetition. The newest line before is a stored one, of at
-- most 127 bytes.
pub history_add-long :
    (c : ℕ) (cs : List ℕ) (h : History)
    → IsHistory h
    → 127 < length (c ∷ cs)
    → length (get_or (lines h) (length (lines h) - 1) []) ≤ 127
    → lines (history_add (some (c ∷ cs)) (history_add (some (c ∷ cs)) h))
      ≡ recent (recent (lines h ++ (take 127 (c ∷ cs) ∷ [])) ++ (take 127 (c ∷ cs) ∷ []))
history_add-long c cs h v long short =
    (let (first, _, v') = history_add_lem (some (c ∷ cs)) h v in
      let (second, _, _) = history_add_lem (some (c ∷ cs)) (history_add (some (c ∷ cs)) h) v' in
      second
      ∙ ap (add_line (some (c ∷ cs))) (first ∙ added_long c cs (lines h) long short)
      ∙ added_long c cs (recent (lines h ++ (take 127 (c ∷ cs) ∷ []))) long (
          omega (
            arith,
            ap length (last_recent (lines h) (take 127 (c ∷ cs))),
            length-take 127 (c ∷ cs),
          )))
