-- ===== src/Vm/Tests.antt =====
-- A page directory for vm.c and three free pages behind it.
use tp2_so.Base.{ℕ, ◌+◌, ◌≡◌, ◌≢◌, Bool, refl, ◌==◌, if◌then◌else◌, arith}
use tp2_so.Kalloc.{Kmem, kalloc}
use tp2_so.Vm.{
  Run, ok, out_of_fuel, mappages, map_pages, map_page, walkpgdir, ◌>>=◌, new_table, get_page,
  clear_page, set_entry,
}
use tp2_so.Vm.User.{uva2ka}
use tp2_so.Vm.Maps.{Fits, mappages-uva2ka}
use tp2_so.Vm.Spaces.{allocuvm, deallocuvm, freevm, setupkvm, copyuvm}
use tp2_so.Vm.Ends.Spaces.{vm_ends}

-- The kernel ends at 0x8010_0000, where the directory is; the free pages are the three after it.
abbrev pub at_end : ℕ
at_end = 0x8010_0000

abbrev pub memory : Kmem
memory = record {
  freelist = at_end + 4096;
  use_lock = 1;
  word = λ a.
      if a == at_end + 4096
      then at_end + 8192
      else if a == at_end + 8192
      then at_end + 12288
      else 0;
}

vm_ends_example :
    (allocuvm at_end at_end 0 4096 memory ≢ out_of_fuel)
    × (deallocuvm at_end at_end 0 4096 memory ≢ out_of_fuel)
    × (freevm at_end at_end memory ≢ out_of_fuel)
    × (setupkvm at_end 0x8010_8000 memory ≢ out_of_fuel)
    × (copyuvm at_end 0x8010_8000 at_end 0 memory ≢ out_of_fuel)
vm_ends_example = vm_ends at_end 0x8010_8000 at_end 0 4096 memory (omega arith) (omega arith)

abbrev memory_after : Run Bool → Kmem
memory_after (ok _ k) = k
memory_after _ = memory

-- After address 0 is mapped with the flags PTE_W | PTE_U.
abbrev mapped : Kmem
mapped = memory_after (mappages at_end 0 4096 0x10_4000 6 memory)

memory-Fits : Fits at_end 0 memory
memory-Fits = record {
  aligned = refl;
  other_table = λ e. absurd (cc e);
  free_page = (refl, omega arith, omega arith, omega arith);
}

mappages-uva2ka_example : uva2ka at_end 0 mapped ≡ ok 0x8010_4000 mapped
unfolding mappages map_pages map_page walkpgdir ◌>>=◌ new_table get_page kalloc clear_page set_entry
mappages-uva2ka_example =
    mappages-uva2ka at_end 0 0x10_4000 6 memory mapped memory-Fits refl (omega arith) refl
      (omega arith) refl
