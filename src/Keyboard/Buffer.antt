-- ===== src/Keyboard/Buffer.antt =====
-- The ring buffer of kernel/drivers/keyboard.c is a bounded queue of 255 characters.
use simpleos.Common.{
  Bool-cases, inl, inr, ℕ, zero, suc, ◌+◌, ◌-◌, ◌%◌, ◌<◌, ◌≡◌, refl, arith, true, false, ltb, ◌==◌,
  if◌then◌else◌, List, [], ◌∷◌, ◌++◌, length, take, drop,
}
use simpleos.Common.Ring.{wrap, slots, slots-push, slots-pop, slots-none, length-slots}
use simpleos.Keyboard.{Keyboard, buffer_put, buffer_get, keyboard_available, keyboard_read}

pub record IsKeyboard (k : Keyboard) : Type 0 where
  pub head_lt : k.buffer_head < 256
  pub tail_lt : k.buffer_tail < 256

abbrev pub pending_count : Keyboard → ℕ
pending_count k = (k.buffer_head + 256 - k.buffer_tail) % 256

-- The characters waiting to be read, the oldest first.
abbrev pub pending : Keyboard → List ℕ
pending k = slots k.key_buffer 256 k.buffer_tail (pending_count k)

pub length-pending : (k : Keyboard) → length (pending k) ≡ pending_count k
length-pending k = length-slots k.key_buffer 256 k.buffer_tail (pending_count k)

-- Moving the head on by one adds one character, unless the buffer is full.
pending_count-put :
    (h t : ℕ)
    → h < 256
    → t < 256
    → ((h + 1) % 256 == t) ≡ false
    → (((h + 1) % 256 + 256 - t) % 256 ≡ (h + 256 - t) % 256 + 1)
      × (wrap 256 (t + (h + 256 - t) % 256) ≡ h)
      × ((h + 256 - t) % 256 < 255)
pending_count-put h t hh ht room = ground arith

pending_count-full :
    (h t : ℕ) → h < 256 → t < 256 → ((h + 1) % 256 == t) ≡ true → (h + 256 - t) % 256 ≡ 255
pending_count-full h t hh ht full = ground arith

-- `buffer_put` appends the character if fewer than 255 are waiting, and drops it otherwise.
pub pending-buffer_put :
    (c : ℕ) (k : Keyboard)
    → IsKeyboard k
    → pending (buffer_put c k)
      ≡ (if ltb (pending_count k) 255 then pending k ++ (c ∷ []) else pending k)
unfolding buffer_put
pending-buffer_put c k v = elim (Bool-cases ((k.buffer_head + 1) % 256 == k.buffer_tail)) [
  | inl full ↦
      ground (arith, pending_count-full k.buffer_head k.buffer_tail v.head_lt v.tail_lt full)
  | inr room ↦ ground (
    arith,
    pending_count-put k.buffer_head k.buffer_tail v.head_lt v.tail_lt room,
    slots-push k.key_buffer 256 k.buffer_tail (pending_count k) c v.tail_lt,
  )
]

pub buffer_put-IsKeyboard : (c : ℕ) (k : Keyboard) → IsKeyboard k → IsKeyboard (buffer_put c k)
unfolding buffer_put
buffer_put-IsKeyboard c k v = record {
  head_lt = ground (arith, v.head_lt);
  tail_lt = ground (arith, v.tail_lt);
}

pending_count-none : (k : Keyboard) → (k.buffer_head == k.buffer_tail) ≡ true → pending_count k ≡ 0
pending_count-none k empty = ground arith

-- Moving the tail on by one takes one character away.
pending_count-get :
    (h t : ℕ)
    → h < 256
    → t < 256
    → (h == t) ≡ false
    → ((h + 256 - t) % 256 ≡ suc ((h + 256 - (t + 1) % 256) % 256))
      × ((if t + 1 == 256 then 0 else t + 1) ≡ (t + 1) % 256)
pending_count-get h t hh ht left = ground arith

-- `buffer_get` takes the oldest character, and gives 0 and changes nothing if there is none.
pub pending-buffer_get :
    (k : Keyboard)
    → IsKeyboard k
    → pending k
      ≡ (if keyboard_available k then ((buffer_get k).0 ∷ pending ((buffer_get k).1)) else [])
unfolding buffer_get keyboard_available
pending-buffer_get k v = elim (Bool-cases (k.buffer_head == k.buffer_tail)) [
  | inl empty ↦
      ground (arith, pending_count-none k empty, slots-none k.key_buffer 256 k.buffer_tail)
  | inr some_left ↦
      (let (count, rest) =
          pending_count-get k.buffer_head k.buffer_tail v.head_lt v.tail_lt some_left in
        ground (
          arith,
          count,
          rest,
          slots-pop k.key_buffer 256 k.buffer_tail
              ((k.buffer_head + 256 - (k.buffer_tail + 1) % 256) % 256) v.tail_lt,
        ))
]

pub buffer_get-IsKeyboard : (k : Keyboard) → IsKeyboard k → IsKeyboard ((buffer_get k).1)
unfolding buffer_get
buffer_get-IsKeyboard k v = record {
  head_lt = ground (arith, v.head_lt);
  tail_lt = ground (arith, v.tail_lt);
}

-- `keyboard_read` takes the oldest `n` characters, or all if fewer are waiting.
pub keyboard_read_lem :
    (n : ℕ) (k : Keyboard)
    → IsKeyboard k
    → ((keyboard_read n k).0 ≡ take n (pending k))
      × (pending ((keyboard_read n k).1) ≡ drop n (pending k))
unfolding keyboard_read
keyboard_read_lem zero k v = (refl, refl)
keyboard_read_lem (suc n) k v = elim (Bool-cases (keyboard_available k)) [
  | inl ready ↦ ground (
    arith,
    ready,
    pending-buffer_get k v,
    keyboard_read_lem n ((buffer_get k).1) (buffer_get-IsKeyboard k v),
  )
  | inr empty ↦ ground (arith, empty, pending-buffer_get k v)
]
