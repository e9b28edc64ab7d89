-- ===== src/History.antt =====
-- The shell's history of command lines, kernel/shell/history.c. A line is the list of its bytes
-- before the terminating NUL; a null pointer and the selection -1 are `none`.
pub mod Lines
pub mod Add
pub mod Walk
pub mod Long
mod Examples
use simpleos.Common.{
  ℕ, zero, suc, ◌+◌, ◌-◌, ◌%◌, Bool, true, false, not, ◌&&◌, ltb, ◌==◌, if◌then◌else◌, List, [],
  ◌∷◌, Option, none, some, take,
}
use simpleos.Common.Bytes.{update}

abbrev pub max_entries : ℕ
max_entries = 16

abbrev pub max_line : ℕ
max_line = 128

pub record History : Type 0 where
  pub history_entries : ℕ → List ℕ
  pub history_count : ℕ
  pub history_start : ℕ
  pub nav_pos : Option ℕ

unfoldable pub str_equal : List ℕ → List ℕ → Bool
str_equal [] [] = true
str_equal [] (y ∷ ys) = false
str_equal (x ∷ xs) [] = false
str_equal (x ∷ xs) (y ∷ ys) = let rest = str_equal xs ys in if not (x == y) then false else rest

unfoldable pub history_init : History → History
history_init h = record h { history_count = 0; history_start = 0; nav_pos = none }

unfoldable pub history_reset_nav : History → History
history_reset_nav h = record h { nav_pos = none }

-- The cell of the line that is `index_from_newest` lines older than the newest one.
abbrev pub index : History → ℕ → ℕ
index h index_from_newest =
    (h.history_start + h.history_count - 1 - index_from_newest) % max_entries

-- The copy of at most `HISTORY_MAX_LINE - 1` bytes into the cell, with a NUL behind it.
abbrev pub store : ℕ → List ℕ → History → History
store insert_index line h = record h {
  history_entries = update h.history_entries insert_index (take (max_line - 1) line);
  nav_pos = none;
}

unfoldable pub insert : List ℕ → History → History
insert line h =
    if ltb h.history_count max_entries
    then store ((h.history_start + h.history_count) % max_entries) line
        (record h { history_count = h.history_count + 1 })
    else store h.history_start line
        (record h { history_start = (h.history_start + 1) % max_entries })

unfoldable pub history_add : Option (List ℕ) → History → History
history_add none h = history_reset_nav h
history_add (some []) h = history_reset_nav h
history_add (some (c ∷ cs)) h =
    if ltb 0 h.history_count && str_equal (h.history_entries (index h 0)) (c ∷ cs)
    then history_reset_nav h
    else insert (c ∷ cs) h

-- One line older, if there is one: `nav_pos++` when it is below `history_count - 1`.
abbrev pub older : Option ℕ → ℕ → ℕ
older none count = 0
older (some n) count = if ltb (n + 1) count then n + 1 else n

unfoldable pub history_prev : History → Option (List ℕ) × History
history_prev h =
    let n = older h.nav_pos h.history_count in
    if h.history_count == 0
    then (none, h)
    else (some (h.history_entries (index h n)), record h { nav_pos = some n })

unfoldable pub newer : Option ℕ → History → Option (List ℕ) × History
newer none h = (none, h)
newer (some zero) h = (none, record h { nav_pos = none })
newer (some (suc n)) h = (some (h.history_entries (index h n)), record h { nav_pos = some n })

unfoldable pub history_next : History → Option (List ℕ) × History
history_next h = if h.history_count == 0 then (none, h) else newer h.nav_pos h
