-- ===== src/Commands/Examples.antt =====
-- The theorems on the commands at concrete inputs.
use simpleos.Common.{◌≡◌, arith, refl, [], ◌∷◌, none}
use simpleos.Console.Samples.{small_console, small_console-IsConsole}
use simpleos.Commands.{
  show, text, char, cmd_echo, echo_words, cmd_version, print_bytes_human, dump, dump_lines,
}
use simpleos.Commands.Screen.{OnScreen, show-OnScreen}
use simpleos.Commands.Sizes.{Human, print_bytes_human-Human}
use simpleos.Commands.Dump.{Dumped, dump-Dumped, dump_lines-endless}

show-OnScreen_example : OnScreen cmd_version small_console (show cmd_version small_console)
show-OnScreen_example = show-OnScreen cmd_version small_console small_console-IsConsole

-- 1.5 KB.
print_bytes_human-Human_example : Human 1536 (print_bytes_human 1536)
print_bytes_human-Human_example = print_bytes_human-Human 1536

dump-Dumped_example :
    Dumped 18446744073709551610 20 (λ a. 171) (dump 18446744073709551610 20 (λ a. 171))
dump-Dumped_example =
    dump-Dumped 18446744073709551610 20 (λ a. 171) (omega arith) (λ a. omega arith)

dump_lines-endless_example : dump_lines 1000 0 18446744073709551615 0 (λ a. 0) ≡ none
dump_lines-endless_example =
    dump_lines-endless 0 18446744073709551615 (λ a. 0) (omega arith) 1000 0 (omega arith)
      (omega arith) refl

echo_two :
    cmd_echo ((b'a' ∷ []) ∷ (b'b' ∷ []) ∷ [])
    ≡ text (b'a' ∷ []) ∷ char b' ' ∷ text (b'b' ∷ []) ∷ char b'\n' ∷ []
unfolding cmd_echo echo_words
echo_two = refl
