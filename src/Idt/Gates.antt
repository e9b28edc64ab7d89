-- ===== src/Idt/Gates.antt =====
-- Which gate stands at every vector after `idt_init` of kernel/cpu/idt.c.
use simpleos.Common.{
  ℕ, zero, suc, ◌+◌, ◌-◌, ◌*◌, ◌%◌, ◌^◌, ◌≤◌, ◌<◌, ◌≡◌, refl, arith, Bool, true, not, ◌&&◌, ◌||◌,
  ltb, leb, ◌==◌, ==_iff, if◌then◌else◌, List, [], ◌∷◌, ap, ◌∙◌,
}
use simpleos.Common.Bytes.{update, passes, passes_at}
use simpleos.Idt.{
  Gate, Idt, gate_of, interrupt_gate, trap_gate, kernel_code, idt_set_entry, clear_gates,
  exception_gates, set_exceptions, set_irqs, idt_load, idt_init,
}

-- The address that a gate leads to.
abbrev pub target : Gate → ℕ
target g =
    g.offset_low % 2 ^ 16 + (g.offset_mid % 2 ^ 16) * 2 ^ 16 + (g.offset_high % 2 ^ 32) * 2 ^ 32

-- A gate as the processor reads it: its address, code segment, stack table entry and type.
abbrev pub read_gate : Gate → ℕ × ℕ × ℕ × ℕ
read_gate g = (target g, g.selector, g.ist, g.type_attr)

-- The three parts of a gate hold the whole of a 64-bit address.
pub target-gate_of :
    (handler selector type_attr : ℕ)
    → handler < 2 ^ 64
    → target (gate_of handler selector type_attr) ≡ handler
target-gate_of handler selector type_attr h = omega (arith, h)

-- The type that a list of calls gives a vector, 0 if it has none.
abbrev type_in : List (ℕ × ℕ) → ℕ → ℕ
type_in [] v = 0
type_in ((v', t) ∷ rest) v =
    let later = type_in rest v in if later == 0 then (if v' == v then t else 0) else later

abbrev proper : List (ℕ × ℕ) → Bool
proper [] = true
proper ((v, t) ∷ rest) = ltb v 256 && not (t == 0) && proper rest

set_exceptions_lem :
    (l : List (ℕ × ℕ)) (isr : ℕ → ℕ) (gates : ℕ → Gate) (v : ℕ)
    → proper l ≡ true
    → set_exceptions l isr gates v
      ≡ (if type_in l v == 0 then gates v else gate_of (isr v) kernel_code (type_in l v))
unfolding set_exceptions idt_set_entry
set_exceptions_lem [] isr gates v h = refl
set_exceptions_lem ((v', t) ∷ rest) isr gates v h =
    set_exceptions_lem rest isr (update gates (v' % 256) (gate_of (isr v') kernel_code t)) v
      (ground (arith, h))
    ∙ ground (arith, h, λ (e : v' ≡ v). ap (λ x. gate_of (isr x) kernel_code t) e)

set_irqs_lem :
    (rounds i : ℕ) (irq : ℕ → ℕ) (gates : ℕ → Gate) (v : ℕ)
    → i + rounds ≤ 16
    → set_irqs rounds i irq gates v ≡ (
        if leb (32 + i) v && ltb v (32 + i + rounds)
        then gate_of (irq (v - 32)) kernel_code interrupt_gate
        else gates v)
unfolding set_irqs idt_set_entry
set_irqs_lem zero i irq gates v h = ground arith
set_irqs_lem (suc rounds) i irq gates v h =
    set_irqs_lem rounds (i + 1) irq
      (update gates ((32 + i) % 256) (gate_of (irq i) kernel_code interrupt_gate)) v
      (omega (arith, h))
    ∙ ground (arith, h, λ (e : i ≡ v - 32). ap (λ x. gate_of (irq x) kernel_code interrupt_gate) e)

clear_gates_lem :
    (rounds i : ℕ) (gates : ℕ → Gate) (v : ℕ)
    → i + rounds ≤ 256
    → clear_gates rounds i gates v
      ≡ (if leb i v && ltb v (i + rounds) then gate_of 0 0 0 else gates v)
unfolding clear_gates idt_set_entry
clear_gates_lem zero i gates v h = ground arith
clear_gates_lem (suc rounds) i gates v h =
    clear_gates_lem rounds (i + 1) (update gates (i % 256) (gate_of 0 0 0)) v (omega (arith, h))
    ∙ ground (arith, h)

-- The exceptions that have a gate: up to 20, without the two that are reserved; breakpoint and overflow
-- can be raised by user code.
abbrev pub exception_type : ℕ → ℕ
exception_type v =
    if leb 21 v || (v == 9) || (v == 15)
    then 0
    else if (v == 3) || (v == 4)
    then trap_gate
    else interrupt_gate

types_agree : passes (λ v. type_in exception_gates v == exception_type v) 256 ≡ true
unfolding passes
types_agree = refl

abbrev written_at : (ℕ → ℕ) → (ℕ → ℕ) → ℕ → Gate
written_at isr irq v =
    if leb 32 v && ltb v 48
    then gate_of (irq (v - 32)) kernel_code interrupt_gate
    else if exception_type v == 0
    then gate_of 0 0 0
    else gate_of (isr v) kernel_code (exception_type v)

gates-written_at :
    (isr irq : ℕ → ℕ) (address : ℕ) (idt : Idt) (v : ℕ)
    → v < 256
    → (idt_init isr irq address idt).gates v ≡ written_at isr irq v
unfolding idt_init idt_load
gates-written_at isr irq address idt v h =
    (let same : type_in exception_gates v ≡ exception_type v =
        (==_iff _ _).0
          (passes_at (λ x. type_in exception_gates x == exception_type x) 256 h types_agree) in
      let cleared = clear_gates 256 0 idt.gates in
      set_irqs_lem 16 0 irq (set_exceptions exception_gates isr cleared) v (omega arith)
      ∙ ap
          (λ g.
            if leb 32 v && ltb v 48 then gate_of (irq (v - 32)) kernel_code interrupt_gate else g)
          (set_exceptions_lem exception_gates isr cleared v refl
            ∙ ap (λ t. if t == 0 then cleared v else gate_of (isr v) kernel_code t) same
            ∙ ap
                (λ g.
                  if exception_type v == 0
                  then g
                  else gate_of (isr v) kernel_code (exception_type v))
                (clear_gates_lem 256 0 idt.gates v (omega arith) ∙ ground (arith, h))))

-- What the processor reads at a vector: type 0x8E is an interrupt gate for the kernel, 0xEF a trap gate
-- that user code can call, and 0 an absent gate; 8 is the kernel's code segment.
abbrev pub gate_at : (ℕ → ℕ) → (ℕ → ℕ) → ℕ → ℕ × ℕ × ℕ × ℕ
gate_at isr irq v =
    if leb 32 v && ltb v 48
    then (irq (v - 32), 8, 0, 0x8E)
    else if leb 21 v || (v == 9) || (v == 15)
    then (0, 0, 0, 0)
    else if (v == 3) || (v == 4)
    then (isr v, 8, 0, 0xEF)
    else (isr v, 8, 0, 0x8E)

read_gate-written_at :
    (isr irq : ℕ → ℕ) (v : ℕ)
    → isr v < 2 ^ 64
    → irq (v - 32) < 2 ^ 64
    → read_gate (written_at isr irq v) ≡ gate_at isr irq v
read_gate-written_at isr irq v word word' = ground (arith, word, word')

-- After `idt_init`, with entry points at 64-bit addresses, every vector up to 20, but 9 and 15, leads to
-- its exception entry, with a trap gate for user code at breakpoint and overflow and an interrupt gate
-- elsewhere; vectors 32 to 47 lead to the entries of the sixteen lines, by interrupt gates; every other
-- gate is absent. All are in the kernel's code segment, and the processor is given the whole table.
pub idt_init-gate_at :
    (isr irq : ℕ → ℕ) (address : ℕ) (idt : Idt)
    → (v : ℕ) → v < 256
    → isr v < 2 ^ 64
    → irq (v - 32) < 2 ^ 64
    → (read_gate ((idt_init isr irq address idt).gates v) ≡ gate_at isr irq v)
      × ((idt_init isr irq address idt).limit ≡ 4095)
      × ((idt_init isr irq address idt).base ≡ address)
unfolding idt_init idt_load
idt_init-gate_at isr irq address idt v h word word' = (
  ap read_gate (gates-written_at isr irq address idt v h)
      ∙ read_gate-written_at isr irq v word word',
  refl,
  refl,
)
