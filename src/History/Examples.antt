-- ===== src/History/Examples.antt =====
-- Examples for kernel/shell/history.c.
use simpleos.Common.{ℕ, zero, suc, ◌+◌, ◌≡◌, refl, arith, List, [], ◌∷◌, none, some}
use simpleos.Common.Ring.{slots}
use simpleos.History.{
  History, history_add, history_prev, history_next, history_reset_nav, str_equal,
}
use simpleos.History.Lines.{lines, IsHistory}
use simpleos.History.Add.{history_add_lem}
use simpleos.History.Walk.{up, history_prev-up, history_next-history_prev}
use simpleos.History.Long.{history_add-long}

-- Sixteen lines: line number `i` of the array is the one byte `i + 1`; the oldest stands in cell 3.
abbrev full_history : History
full_history = record {
  history_entries = λ i. (i + 1) ∷ [];
  history_count = 16;
  history_start = 3;
  nav_pos = some 2;
}

full_history-IsHistory : IsHistory full_history
full_history-IsHistory = record {
  start_lt = omega arith;
  count_le = omega arith;
  selection = omega arith;
}

history_add_lem_example :
    (lines (history_add (some (b'l' ∷ b's' ∷ [])) full_history)
      ≡ (5 ∷ [])
        ∷ (6 ∷ [])
        ∷ (7 ∷ [])
        ∷ (8 ∷ [])
        ∷ (9 ∷ [])
        ∷ (10 ∷ [])
        ∷ (11 ∷ [])
        ∷ (12 ∷ [])
        ∷ (13 ∷ [])
        ∷ (14 ∷ [])
        ∷ (15 ∷ [])
        ∷ (16 ∷ [])
        ∷ (1 ∷ [])
        ∷ (2 ∷ [])
        ∷ (3 ∷ [])
        ∷ (b'l' ∷ b's' ∷ [])
        ∷ [])
    × ((history_add (some (b'l' ∷ b's' ∷ [])) full_history).nav_pos ≡ none)
    × IsHistory (history_add (some (b'l' ∷ b's' ∷ [])) full_history)
unfolding slots str_equal
history_add_lem_example =
    history_add_lem (some (b'l' ∷ b's' ∷ [])) full_history full_history-IsHistory

history_prev-up_example : (history_prev (up 4 (history_reset_nav full_history))).0 ≡ some (15 ∷ [])
unfolding slots
history_prev-up_example = history_prev-up 4 full_history full_history-IsHistory (omega arith)

history_next-history_prev_example :
    history_next ((history_prev full_history).1) ≡ (some (1 ∷ []), full_history)
unfolding slots
history_next-history_prev_example =
    history_next-history_prev full_history full_history-IsHistory refl

-- A line of `n + 1` times the letter x.
abbrev letters : ℕ → List ℕ
letters zero = []
letters (suc n) = b'x' ∷ letters n

abbrev new_history : History
new_history = record {
  history_entries = λ i. [];
  history_count = 0;
  history_start = 0;
  nav_pos = none;
}

history_add-long_example :
    lines (
      history_add (some (b'x' ∷ letters 130)) (history_add (some (b'x' ∷ letters 130)) new_history))
    ≡ letters 127 ∷ letters 127 ∷ []
unfolding slots
history_add-long_example =
    history_add-long b'x' (letters 130) new_history
      (record { start_lt = omega arith; count_le = omega arith; selection = omega arith })
      (omega arith) (omega arith)
