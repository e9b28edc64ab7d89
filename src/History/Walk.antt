-- ===== src/History/Walk.antt =====
-- Walking through the history, kernel/shell/history.c.
use simpleos.Common.{
  ℕ, zero, suc, ◌+◌, ◌-◌, ◌<◌, ◌≡◌, refl, arith, Bool, true, ltb, ltb→lt, List, Option, none, some,
  min, ap, ◌∙◌,
}
use simpleos.History.{History, older, history_prev, history_next, newer, history_reset_nav}
use simpleos.History.Lines.{newest, IsHistory, IsSelection, entry_newest}

older-lt :
    (nav : Option ℕ) (count : ℕ) → IsSelection nav count → 0 < count → older nav count < count
older-lt none count s h = h
older-lt (some n) count s h = ground (arith, s)

-- `history_prev` shows the line that the selection moves to.
pub history_prev_lem :
    (h : History)
    → IsHistory h
    → 0 < h.history_count
    → history_prev h ≡ (
      some (newest h (older h.nav_pos h.history_count)),
      record h { nav_pos = some (older h.nav_pos h.history_count) },
    )
unfolding history_prev
history_prev_lem h v some_line = ground (
  arith,
  some_line,
  entry_newest h (older h.nav_pos h.history_count) v
      (older-lt h.nav_pos h.history_count v.selection some_line),
)

-- The state after `k` calls of `history_prev`.
unfoldable pub up : ℕ → History → History
up zero h = h
up (suc k) h = (history_prev (up k h)).1

abbrev pub select : Option ℕ → History → History
select nav h = record h { nav_pos = nav }

select-IsHistory :
    (nav : Option ℕ) (h : History)
    → IsHistory h
    → IsSelection nav h.history_count
    → IsHistory (select nav h)
select-IsHistory nav h v s = record { start_lt = v.start_lt; count_le = v.count_le; selection = s }

-- `history_prev` from any selection of a history that has a line.
prev_select :
    (nav : Option ℕ) (n : ℕ) (h : History)
    → IsHistory h
    → 0 < h.history_count
    → IsSelection nav h.history_count
    → older nav h.history_count ≡ n
    → history_prev (select nav h) ≡ (some (newest h n), select (some n) h)
prev_select nav n h v some_line s e =
    history_prev_lem (select nav h) (select-IsHistory nav h v s) some_line
    ∙ ap (λ m. (some (newest h m), select (some m) h)) e

older-min :
    (k count : ℕ) → 0 < count → older (some (min k (count - 1))) count ≡ min (suc k) (count - 1)
older-min k count h = ground arith

up_lem :
    (k : ℕ) (h : History)
    → IsHistory h
    → 0 < h.history_count
    → history_prev (up k (select none h)) ≡ (
      some (newest h (min k (h.history_count - 1))),
      select (some (min k (h.history_count - 1))) h,
    )
unfolding up
up_lem zero h v some_line =
    prev_select none (min 0 (h.history_count - 1)) h v some_line (omega arith) (omega arith)
up_lem (suc k) h v some_line =
    ap (λ r. history_prev (r.1)) (up_lem k h v some_line)
    ∙ prev_select (some (min k (h.history_count - 1))) (min (suc k) (h.history_count - 1)) h v
        some_line (omega (arith, some_line)) (older-min k h.history_count some_line)

-- From the prompt, call number `k + 1` of `history_prev` shows the line that is `k` lines older than
-- the newest one, or the oldest line when there is none so old.
pub history_prev-up :
    (k : ℕ) (h : History)
    → IsHistory h
    → 0 < h.history_count
    → (history_prev (up k (history_reset_nav h))).0 ≡ some (newest h (min k (h.history_count - 1)))
unfolding history_reset_nav
history_prev-up k h v some_line = ap (λ r. r.0) (up_lem k h v some_line)

-- What is selected: nothing at the prompt.
abbrev pub shown : Option ℕ → History → Option (List ℕ)
shown none h = none
shown (some n) h = some (newest h n)

-- Is there a line older than the selection?
abbrev pub has_older : Option ℕ → ℕ → Bool
has_older none count = ltb 0 count
has_older (some n) count = ltb (n + 1) count

next_after :
    (nav : Option ℕ) (h : History)
    → IsHistory h
    → IsSelection nav h.history_count
    → has_older nav h.history_count ≡ true
    → history_next ((history_prev (select nav h)).1) ≡ (shown nav h, select nav h)
unfolding history_next newer
next_after none h v s more =
    (let moved = prev_select none 0 h v (ltb→lt _ _ more) s refl in
      ap (λ r. history_next (r.1)) moved ∙ ground (arith, more))
next_after (some n) h v s more =
    (let moved = prev_select (some n) (suc n) h v (omega (arith, s)) s (ground (arith, more)) in
      ap (λ r. history_next (r.1)) moved ∙ ground (arith, s, entry_newest h n v s))

-- `history_next` undoes a `history_prev` that moved the selection: the state is the one before, and
-- what was selected before is shown again.
pub history_next-history_prev :
    (h : History)
    → IsHistory h
    → has_older h.nav_pos h.history_count ≡ true
    → history_next ((history_prev h).1) ≡ (shown h.nav_pos h, h)
history_next-history_prev h v more = next_after h.nav_pos h v v.selection more
