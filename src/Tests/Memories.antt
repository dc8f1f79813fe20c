-- ===== src/Tests/Memories.antt =====
-- The theorems on memories at concrete machines.
use watgo.Common.{ℕ, ◌+◌, ◌*◌, ◌%◌, ◌^◌, ◌≡◌, ◌↔◌, ◌⊎◌, inl, inr, refl, arith}
use watgo.Common.{
  All-replicate, length-replicate, true, false, some, [], ◌∷◌, ◌++◌, ok, IsOk, length, get_elem?,
  replicate,
}
use watgo.Common.Window.{window, overwrite}
use watgo.Wasmir.{Limits, value_type_i32}
use watgo.Binary.Reader.{IsByte}
use watgo.Vm.State.{Machine, Segment, memory, memory_inst, data_segment, check_segment, set_memory}
use watgo.Vm.State.Windows.{InMemory, InSegment}
use watgo.Vm.Memories.{memory_load, memory_store, memory_grow, memory_copy}
use watgo.Vm.Memories.{memory_init, supported_size, page_size, max_pages, can_grow, initial_memory}
use watgo.Vm.Memories.Access.{memory_load-store, memory_store_iff, memory_store_frame, stored}
use watgo.Vm.Memories.Bulk.{memory_copy_iff, memory_copy_bytes, memory_copy_frame}
use watgo.Vm.Memories.Bulk.{memory_init_iff, memory_init_bytes}
use watgo.Vm.Memories.Grow.{IsValid, RoomFor, memory_grow-cases}
use watgo.Vm.Memories.Valid.{AllValid, memory_grow-AllValid}
use watgo.Tests.{machine, empty_memory, empty_machine, machine_over}

abbrev after_store : Machine
after_store = stored machine 7 2 4 305419896

memory_load-store_example : memory_load after_store 0 2 4 ≡ ok (305419896 % 256 ^ 4)
unfolding memory_store memory memory_inst
memory_load-store_example = memory_load-store machine 0 2 4 305419896 after_store refl

memory_store_iff_example :
    IsOk (memory_store machine 0 5 4 1)
    ↔ ((supported_size 4 ≡ true) × ((p : ℕ) × InMemory machine 0 5 4 p))
memory_store_iff_example = memory_store_iff machine 0 5 4 1

memory_store_frame_example :
    (get_elem? (after_store.memory_at 7).bytes 6 ≡ get_elem? (machine.memory_at 7).bytes 6)
    × (length (after_store.memory_at 7).bytes ≡ length (machine.memory_at 7).bytes)
unfolding memory_store memory memory_inst
memory_store_frame_example =
    memory_store_frame machine 0 2 4 305419896 after_store 7 6 refl (inr (inr (omega arith)))

abbrev after_copy : Machine
after_copy = set_memory machine 7 (10 ∷ 11 ∷ 10 ∷ 11 ∷ 12 ∷ 13 ∷ 16 ∷ 17 ∷ [])

memory_copy_iff_example :
    IsOk (memory_copy machine 0 2 1 6 4)
    ↔ (((p : ℕ) × InMemory machine 0 2 4 p) × ((q : ℕ) × InMemory machine 1 6 4 q))
memory_copy_iff_example = memory_copy_iff machine 0 2 1 6 4

memory_copy_bytes_example :
    get_elem? (after_copy.memory_at 7).bytes (2 + 3) ≡ get_elem? (machine.memory_at 7).bytes (0 + 3)
unfolding memory_copy memory memory_inst window overwrite
memory_copy_bytes_example =
    memory_copy_bytes machine 0 2 0 0 4 after_copy 7 7 3 refl refl refl (omega arith)

memory_copy_frame_example :
    (get_elem? (after_copy.memory_at 9).bytes 3 ≡ get_elem? (machine.memory_at 9).bytes 3)
    × (length (after_copy.memory_at 9).bytes ≡ length (machine.memory_at 9).bytes)
unfolding memory_copy memory memory_inst window overwrite
memory_copy_frame_example =
    memory_copy_frame machine 0 2 0 0 4 after_copy 9 3 refl (inl (ground arith))

abbrev after_fill : Machine
after_fill = set_memory machine 7 (10 ∷ 11 ∷ 12 ∷ 255 ∷ 255 ∷ 15 ∷ 16 ∷ 17 ∷ [])

abbrev segment : Segment ℕ
segment = record { init = 1 ∷ 2 ∷ 3 ∷ []; dropped = false }

abbrev after_init : Machine
after_init = set_memory machine 7 (2 ∷ 3 ∷ 12 ∷ 13 ∷ 14 ∷ 15 ∷ 16 ∷ 17 ∷ [])

memory_init_iff_example : IsOk (memory_init machine 0 0 0 1 2) ↔ (
    ((seg : Segment ℕ) × (data_segment machine 0 ≡ ok seg) × InSegment seg 1 2)
    × ((p : ℕ) × InMemory machine 0 0 2 p))
memory_init_iff_example = memory_init_iff machine 0 0 0 1 2

memory_init_bytes_example :
    get_elem? (after_init.memory_at 7).bytes (0 + 1) ≡ get_elem? segment.init (1 + 1)
unfolding memory_init memory memory_inst data_segment check_segment window overwrite
memory_init_bytes_example =
    memory_init_bytes machine 0 0 0 1 2 after_init segment 7 1 refl refl refl (omega arith)

empty_memory-IsValid : IsValid empty_memory
unfolding max_pages
empty_memory-IsValid = record {
  pages = 0;
  whole = refl;
  bounded = omega arith;
  addressable = omega arith;
  all_bytes = tt;
}

memory_grow-cases_example :
    (RoomFor empty_memory (0 + 4)
      × (memory_grow empty_machine 0 4
          ≡ ok (0, true, set_memory empty_machine 7 ([] ++ replicate (4 * page_size) 0))))
    ⊎ ((¬ RoomFor empty_memory (0 + 4))
        × (memory_grow empty_machine 0 4 ≡ ok (0, false, empty_machine)))
memory_grow-cases_example = memory_grow-cases empty_machine 0 4 7 refl empty_memory-IsValid

abbrev after_grow : Machine
after_grow = set_memory empty_machine 7 (replicate (2 * page_size) 0)

memory_grow-AllValid_example : AllValid after_grow
unfolding memory_grow memory_inst can_grow
memory_grow-AllValid_example =
    memory_grow-AllValid empty_machine 0 2 7 0 true after_grow (λ p. empty_memory-IsValid) refl refl

abbrev two_pages : Limits
two_pages = record { address_type = value_type_i32; min = 2; max = some 3 }

abbrev page_machine : Machine
page_machine = machine_over (initial_memory two_pages)

page_machine-AllValid : AllValid page_machine
unfolding max_pages
page_machine-AllValid p = record {
  pages = 2;
  whole = length-replicate {A = ℕ} (2 * page_size) 0;
  bounded = omega arith;
  addressable = omega arith;
  all_bytes = All-replicate IsByte (2 * page_size) 0 (omega arith);
}

page_machine-InMemory : InMemory page_machine 0 65534 4 7
page_machine-InMemory = (refl, omega (arith, length-replicate {A = ℕ} (2 * page_size) 0))
