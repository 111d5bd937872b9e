-- ===== src/SharedMemory/Segment/Laws.antt =====
-- What the calls of shmem/src/shared_memory.c leave behind.
use mathlib.Core.Path.{ap₂}
use multiprocessor.SharedMemory.{get_size, get_data_offset, MemoryMap}
use multiprocessor.Common.{
  zero, refl, [], none, ◌∙◌, arith, false, ok, ◌∷◌, suc, true, some, ◌+◌, ◌≡◌, ◌⊎◌, length, ◌<◌,
  ◌≤◌, List, ℕ,
}
use multiprocessor.SharedMemory.Segment.{
  Object, Os, Bytes, Answers, unlink, read_test_data, server_init, client_init, store, fetch,
  write_test_data,
}

-- `shared_memory_server_init` leaks no descriptor. If it returns a mapping, the name stands for an
-- object of the whole size with the map written at its start; if it does not, no object that it
-- created stays, and one that had the name before is untouched.
pub server_init_lem :
    (a : Answers) (m : MemoryMap) (os : Os)
    → ((server_init a m os).1.fds ≡ os.fds)
      × ((server_init a m os).0 ≡ true
          → (server_init a m os).1.linked ≡ some (record { size = get_size m; header = some m }))
      × ((server_init a m os).0 ≡ false → (server_init a m os).1.linked ≡ os.linked)
unfolding server_init unlink
server_init_lem a m os = (ground arith, ground arith, ground arith)

-- `shared_memory_client_init` leaks no descriptor and, where it returns a mapping, leaves the
-- object alone.
pub client_init_lem :
    (a : Answers) (os : Os)
    → ((client_init a os).1.fds ≡ os.fds)
      × ((client_init a os).0 ≡ true → (client_init a os).1.linked ≡ os.linked)
unfolding client_init unlink
client_init_lem a os = (ground arith, ground arith)

-- A client whose `mmap` fails removes the name, though another process made it: after that no
-- further client finds the segment, whatever the calls answer.
pub client_init-unlinks :
    (a b : Answers) (os : Os) (o : Object)
    → os.linked ≡ some o
    → a.opens ≡ true
    → a.maps ≡ false
    → ((client_init a os).1.linked ≡ none) × ((client_init b (client_init a os).1).0 ≡ false)
unfolding client_init unlink
client_init-unlinks a b os o e opened failed = (ground arith, ground arith)

store-outside :
    (base : ℕ) (xs : List ℕ) (mem : Bytes) (a : ℕ)
    → (a < base) ⊎ (base + length xs ≤ a)
    → store base xs mem a ≡ mem a
unfolding store
store-outside base [] mem a out = refl
store-outside base (x ∷ xs) mem a out = ground (arith, store-outside (base + 1) xs mem a)

fetch_same :
    (base n : ℕ) (f g : Bytes) → ((a : ℕ) → base ≤ a → f a ≡ g a) → fetch base n f ≡ fetch base n g
unfolding fetch
fetch_same base zero f g same = refl
fetch_same base (suc n) f g same =
    ap₂ ◌∷◌ (same base (omega arith)) (fetch_same (base + 1) n f g (λ a h. same a (omega arith)))

fetch-store :
    (base : ℕ) (xs : List ℕ) (mem : Bytes) → fetch base (length xs) (store base xs mem) ≡ xs
unfolding fetch store
fetch-store base [] mem = refl
fetch-store base (x ∷ xs) mem =
    ap₂ ◌∷◌ (ground arith)
      (fetch_same (base + 1) (length xs) _ _ (λ a h. ground arith) ∙ fetch-store (base + 1) xs mem)

-- Test data that ends inside the segment is written without touching any byte before the data
-- region or behind the data, and is read back as it was written.
pub read-write_test_data :
    (m : MemoryMap) (buf : List ℕ) (mem : Bytes)
    → get_data_offset m + length buf ≤ get_size m
    → (mem' : Bytes) × (write_test_data m buf mem ≡ ok mem')
      × (read_test_data m (length buf) mem' ≡ ok buf)
      × ((a : ℕ) → (a < get_data_offset m) ⊎ (get_data_offset m + length buf ≤ a) → mem' a ≡ mem a)
unfolding write_test_data read_test_data
read-write_test_data m buf mem room = (
  store (get_data_offset m) buf mem,
  ground arith,
  ground (arith, fetch-store (get_data_offset m) buf mem),
  store-outside (get_data_offset m) buf mem,
)
