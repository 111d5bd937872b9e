-- ===== src/SharedMemory/Segment.antt =====
-- shmem/src/shared_memory.c: creating, mapping and removing the segment, and the test data in it.
-- What `shm_open`, `ftruncate` and `mmap` answer are arguments; a name that is taken is not created
-- again (`O_EXCL`), and one that is free is not opened.
pub mod Laws
use mathlib.Core.Bool.{not}
use multiprocessor.SharedMemory.{get_data_offset, get_size, MemoryMap}
use multiprocessor.Common.{
  map, zero, fault, length, ok, ◌==◌, ◌+◌, suc, leb, [], ◌∷◌, ◌&&◌, some, Run, if◌then◌else◌, false,
  List, true, ℕ, Bool, none, Option, ◌-◌,
}
use mathlib.Core.Option

-- The object behind the name: its size, and the map at its start once one is written.
pub record Object : Type 0 where
  pub size : ℕ
  pub header : Option MemoryMap

-- The name's object, if there is one, and the number of descriptors that the process has open.
pub record Os : Type 0 where
  pub linked : Option Object
  pub fds : ℕ

pub record Answers : Type 0 where
  pub opens : Bool
  pub truncates : Bool
  pub maps : Bool

abbrev is_none {ℓ} : {A : Type ℓ} → Option A → Bool
is_none none = true
is_none (some a) = false

-- `shm_open(O_CREAT|O_EXCL|O_RDWR)`.
abbrev open_new : Bool → Os → Option Os
open_new answer os =
    if answer && is_none os.linked
    then some (record { linked = some (record { size = 0; header = none }); fds = os.fds + 1 })
    else none

-- `shm_open(O_RDWR)`.
abbrev open_old : Bool → Os → Option Os
open_old answer os =
    if answer && not (is_none os.linked) then some (record os { fds = os.fds + 1 }) else none

abbrev resize : ℕ → Os → Os
resize n os = record os { linked = Option.map (λ (o : Object). record o { size = n }) os.linked }

-- `memcpy(shmdata, map, sizeof(memory_map_t))`.
abbrev write_header : MemoryMap → Os → Os
write_header m os = record os {
  linked = Option.map (λ (o : Object). record o { header = some m }) os.linked;
}

-- `close`.
abbrev close : Os → Os
close os = record os { fds = os.fds - 1 }

-- `shared_memory_unlink`.
unfoldable pub unlink : Os → Os
unlink os = record os { linked = none }

-- `shared_memory_server_init`: whether it returns a mapping, and what it leaves behind.
unfoldable pub server_init : Answers → MemoryMap → Os → Bool × Os
unfolding unlink
server_init a m os = elim (open_new a.opens os) [
  | none ↦ (false, os)
  | some os₁ ↦
      if not a.truncates
      then (false, close (unlink os₁))
      else let os₂ = resize (get_size m) os₁ in
        if not a.maps then (false, close (unlink os₂)) else (true, close (write_header m os₂))
]

-- `shared_memory_client_init`.
unfoldable pub client_init : Answers → Os → Bool × Os
unfolding unlink
client_init a os = elim (open_old a.opens os) [
  | none ↦ (false, os)
  | some os₁ ↦ if not a.maps then (false, close (unlink os₁)) else (true, close os₁)
]

-- `shared_memory_destroy`: the mapping goes, then the name.
unfoldable pub destroy : Os → Os
unfolding unlink
destroy os = unlink os

-- The bytes of the mapped segment, by offset.
abbrev pub Bytes : Type 0
Bytes = ℕ → ℕ

-- `memcpy` into and out of the segment.
pub store : ℕ → List ℕ → Bytes → Bytes
store base [] mem a = mem a
store base (x ∷ xs) mem a = if a == base then x else store (base + 1) xs mem a

pub fetch : ℕ → ℕ → Bytes → List ℕ
fetch base zero mem = []
fetch base (suc n) mem = mem base ∷ fetch (base + 1) n mem

-- `shared_memory_write_test_data` and `shared_memory_read_test_data`: the length is not compared
-- with the size of the data region, and a copy past the end of the mapping is undefined.
pub write_test_data : MemoryMap → List ℕ → Bytes → Run Bytes
unfolding store
write_test_data m buf mem =
    if leb (get_data_offset m + length buf) (get_size m)
    then ok (store (get_data_offset m) buf mem)
    else fault

pub read_test_data : MemoryMap → ℕ → Bytes → Run (List ℕ)
unfolding fetch
read_test_data m size mem =
    if leb (get_data_offset m + size) (get_size m)
    then ok (fetch (get_data_offset m) size mem)
    else fault
