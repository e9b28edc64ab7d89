-- ===== src/History/Add.antt =====
-- Adding a line, kernel/shell/history.c: the history is the list of the last 16 lines.
use simpleos.Common.{
  ℕ, ◌+◌, ◌-◌, ◌%◌, ◌<◌, ◌≡◌, refl, arith, Bool, true, false, ◌&&◌, ltb, if◌then◌else◌, List, [],
  ◌∷◌, ◌++◌, Option, none, some, get_or, take, drop, length, length-append, ltb→lt, subst,
  Bool-cases, inl, inr, ap,
}
use simpleos.Common.Ring.{slots-push, slots-none, slots-pop, length-slots}
use simpleos.History.{History, index, str_equal, insert, history_add, history_reset_nav}
use simpleos.History.Lines.{lines, IsHistory, entry_newest}

-- At most 16 lines: one too many, and the oldest goes.
abbrev pub recent : List (List ℕ) → List (List ℕ)
recent ls = if ltb 16 (length ls) then drop 1 ls else ls

-- Adding a line to the list: nothing for no line, an empty line, or a repetition of the last line.
abbrev pub add_line : Option (List ℕ) → List (List ℕ) → List (List ℕ)
add_line none ls = ls
add_line (some []) ls = ls
add_line (some (c ∷ cs)) ls =
    if str_equal (get_or ls (length ls - 1) []) (c ∷ cs)
    then ls
    else recent (ls ++ (take 127 (c ∷ cs) ∷ []))

lines-insert_room :
    (line : List ℕ) (h : History)
    → IsHistory h
    → h.history_count < 16
    → lines (insert line h) ≡ lines h ++ (take 127 line ∷ [])
unfolding insert
lines-insert_room line h v room = ground (
  arith,
  v.start_lt,
  slots-push h.history_entries 16 h.history_start h.history_count (take 127 line) v.start_lt room,
)

lines-insert_full :
    (line : List ℕ) (h : History)
    → IsHistory h
    → h.history_count ≡ 16
    → lines (insert line h) ≡ drop 1 (lines h) ++ (take 127 line ∷ [])
unfolding insert
lines-insert_full line h v full =
    (let next = (h.history_start + 1) % 16 in
      ground (
        arith,
        v.start_lt,
        full,
        slots-pop h.history_entries 16 h.history_start 15 v.start_lt (omega arith),
        slots-push h.history_entries 16 next 15 (take 127 line) (omega arith) (omega arith),
      ))

drop_oldest :
    (ls : List (List ℕ)) (l : List ℕ)
    → 0 < length ls
    → drop 1 (ls ++ (l ∷ [])) ≡ drop 1 ls ++ (l ∷ [])
drop_oldest [] l some_line = elim some_line [ ]
drop_oldest (x ∷ ls) l some_line = refl

-- The list with the new line, before the cut, has one line more.
length_added : (h : History) (l : List ℕ) → length (lines h ++ (l ∷ [])) ≡ h.history_count + 1
length_added h l = omega (
  arith,
  length-append (lines h) (l ∷ []),
  length-slots h.history_entries 16 h.history_start h.history_count,
)

lines-insert :
    (line : List ℕ) (h : History)
    → IsHistory h
    → lines (insert line h) ≡ recent (lines h ++ (take 127 line ∷ []))
lines-insert line h v = elim (Bool-cases (ltb h.history_count 16)) [
  | inl room ↦ ground (
    arith,
    v.count_le,
    lines-insert_room line h v (ltb→lt _ _ room),
    length_added h (take 127 line),
  )
  | inr full ↦ ground (
    arith,
    v.count_le,
    lines-insert_full line h v (ground (arith, v.count_le, full)),
    length_added h (take 127 line),
    length-slots h.history_entries 16 h.history_start h.history_count,
    drop_oldest (lines h) (take 127 line) (
        ground (
          arith,
          v.count_le,
          full,
          length-slots h.history_entries 16 h.history_start h.history_count,
        )),
  )
]

insert-IsHistory : (line : List ℕ) (h : History) → IsHistory h → IsHistory (insert line h)
unfolding insert
insert-IsHistory line h v = elim (Bool-cases (ltb h.history_count 16)) [
  | inl room ↦
      rw room
        record { start_lt = v.start_lt; count_le = ground (arith, room); selection = omega arith }
  | inr full ↦
      rw full record { start_lt = omega arith; count_le = v.count_le; selection = omega arith }
]

-- The line that a repetition is compared with.
newest_entry :
    (h : History)
    → IsHistory h
    → 0 < h.history_count
    → h.history_entries (index h 0) ≡ get_or (lines h) (length (lines h) - 1) []
newest_entry h v some_line = ground (
  arith,
  entry_newest h 0 v some_line,
  length-slots h.history_entries 16 h.history_start h.history_count,
)

no_lines : (h : History) → ltb 0 h.history_count ≡ false → lines h ≡ []
no_lines h none_left = ground (arith, none_left, slots-none h.history_entries 16 h.history_start)

-- The guard of `history_add` tests the last line of the list.
guard_lem :
    (h : History) (c : ℕ) (cs : List ℕ)
    → IsHistory h
    → (ltb 0 h.history_count && str_equal (h.history_entries (index h 0)) (c ∷ cs))
      ≡ str_equal (get_or (lines h) (length (lines h) - 1) []) (c ∷ cs)
unfolding str_equal
guard_lem h c cs v = elim (Bool-cases (ltb 0 h.history_count)) [
  | inl some_line ↦
      ground
        (arith, some_line, ap (λ l. str_equal l (c ∷ cs)) (newest_entry h v (ltb→lt _ _ some_line)))
  | inr no_line ↦ ground (arith, no_line, no_lines h no_line)
]

reset-IsHistory : (h : History) → IsHistory h → IsHistory (history_reset_nav h)
unfolding history_reset_nav
reset-IsHistory h v = record {
  start_lt = v.start_lt;
  count_le = v.count_le;
  selection = omega arith;
}

lines_reset : (h : History) → lines (history_reset_nav h) ≡ lines h
unfolding history_reset_nav
lines_reset h = refl

nav_reset : (h : History) → (history_reset_nav h).nav_pos ≡ none
unfolding history_reset_nav
nav_reset h = refl

insert-nav : (line : List ℕ) (h : History) → (insert line h).nav_pos ≡ none
unfolding insert
insert-nav line h = ground arith

-- The two outcomes of the guard.
guarded_add :
    (repeated : Bool) (c : ℕ) (cs : List ℕ) (h : History)
    → IsHistory h
    → (let h' = (if repeated then history_reset_nav h else insert (c ∷ cs) h) in
        (lines h' ≡ (if repeated then lines h else recent (lines h ++ (take 127 (c ∷ cs) ∷ []))))
        × (h'.nav_pos ≡ none)
        × IsHistory h')
unfolding history_reset_nav
guarded_add true c cs h v = (refl, refl, reset-IsHistory h v)
guarded_add false c cs h v =
    (lines-insert (c ∷ cs) h v, insert-nav (c ∷ cs) h, insert-IsHistory (c ∷ cs) h v)

-- `history_add` adds a line to the list of at most 16 lines, cut to 127 bytes, and drops the oldest
-- of them when there are 16; it adds nothing for a null pointer, an empty line, and a line equal to
-- the newest one. The selection is reset and the invariant is kept.
pub history_add_lem :
    (line : Option (List ℕ)) (h : History)
    → IsHistory h
    → (lines (history_add line h) ≡ add_line line (lines h))
      × ((history_add line h).nav_pos ≡ none)
      × IsHistory (history_add line h)
unfolding history_add
history_add_lem none h v = (lines_reset h, nav_reset h, reset-IsHistory h v)
history_add_lem (some []) h v = (lines_reset h, nav_reset h, reset-IsHistory h v)
history_add_lem (some (c ∷ cs)) h v =
    subst
      (λ b.
        (lines (history_add (some (c ∷ cs)) h)
          ≡ (if b then lines h else recent (lines h ++ (take 127 (c ∷ cs) ∷ []))))
        × ((history_add (some (c ∷ cs)) h).nav_pos ≡ none)
        × IsHistory (history_add (some (c ∷ cs)) h))
      (guard_lem h c cs v)
      (guarded_add (ltb 0 h.history_count && str_equal (h.history_entries (index h 0)) (c ∷ cs)) c
        cs h v)
