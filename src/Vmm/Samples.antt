-- ===== src/Vmm/Samples.antt =====
-- A state of kernel/mm/vmm.c for the tests: an empty root table at 4 KiB, and free pages from 2 MiB on.
use simpleos.Common.{ℕ, ◌/◌, ◌<◌, ◌≡◌, refl, arith, ◌==◌, if◌then◌else◌, [], ap, ◌∙◌}
use simpleos.Pmm.Invariant.{used}
use simpleos.Pmm.Samples.{some_free, some_free-IsValid, some_free-used}
use simpleos.Vmm.{Vmm}
use simpleos.Vmm.Tables.{Places, IsTables}

abbrev pub empty_space : Vmm
empty_space = record {
  kernel_pml4 = 0x1000;
  cr3 = 0x1000;
  pmm = some_free;
  words = λ _. 0;
  invalidated = [];
}

abbrev pub root_only : Places
root_only = record { level = λ t. if t == 0x1000 then 4 else 0; prefix = λ _. 0 }

only_root : (t : ℕ) → 0 < root_only.level t → t ≡ 0x1000
only_root t h = ground (arith, h)

pub empty_space-IsTables : IsTables root_only empty_space
empty_space-IsTables = record {
  root_level = refl;
  root_prefix = refl;
  aligned = λ t h. omega (arith, only_root t h);
  taken = λ t h. ap (λ x. used some_free (x / 4096)) (only_root t h) ∙ some_free-used;
  above = λ t h. omega (arith, only_root t h);
  level_below = λ t i h small there. ground (arith, there);
  prefix_below = λ t i h small there. ground (arith, there);
  pages = some_free-IsValid;
}
