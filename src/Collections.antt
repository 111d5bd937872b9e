-- ===== src/Collections.antt =====
-- The counted lists of structs that own a descriptor: the connections of messenger/src/messenger.c and
-- of tcp/src/tcp_process.c, the devices of capture/src/device.c, the interfaces of
-- capture/src/interface.c. Each of these files has its own copy of the same functions.
pub mod Laws
pub mod Search
use multiprocessor.Common.{
  blocked, ◌>>=◌, Bool, List, suc, Run, ◌++◌, some, [], ℕ, ok, ◌==◌, zero, if◌then◌else◌, none, ◌-◌,
  ◌+◌, ◌∷◌, Option,
}
use multiprocessor.LinkedList
use multiprocessor.LinkedList.{Heap, update}

-- The list's own address, the links, the counter, the structs by their address, and the descriptors
-- that were closed, in order.
pub record Collection {ℓ} (A : Type ℓ) : Type ℓ where
  pub list : ℕ
  pub heap : Heap
  pub cnt : ℕ
  pub entry : ℕ → A
  pub closed : List ℕ

-- `memset` of a new struct clears its links.
abbrev pub cleared : ℕ → Heap → Heap
cleared a h = record { next = update h.next a 0; prev = update h.prev a 0 }

module _ {ℓ} {A : Type ℓ} where
  abbrev pub put : (ℕ → A) → ℕ → A → ℕ → A
  put f a v x = if x == a then v else f x

  -- `connection_add` and `device_add`: `address` is what `malloc` gives, 0 for `NULL`.
  unfoldable pub add : (address : ℕ) → A → Collection A → Run (Collection A)
  add address value c =
      if address == 0
      then ok c
      else LinkedList.add_back c.list address (cleared address c.heap) >>= λ h.
          ok (record c { heap = h; cnt = c.cnt + 1; entry = put c.entry address value })

  -- `connection_delete` and `device_delete`, with the descriptor of a struct.
  unfoldable pub delete : (A → ℕ) → (address : ℕ) → Collection A → Run (Collection A)
  delete fd address c = LinkedList.remove_elem c.list address c.heap >>= λ h.
      ok (record c { heap = h; cnt = c.cnt - 1; closed = c.closed ++ fd (c.entry address) ∷ [] })

  -- The loop of `server_destroy`, `client_destroy` and `devices_destroy`; `blocked` where it takes more
  -- rounds.
  unfoldable pub destroy : (A → ℕ) → (fuel : ℕ) → Collection A → Run (Collection A)
  unfolding delete
  destroy fd zero c = blocked
  destroy fd (suc fuel) c = LinkedList.is_empty c.list c.heap >>= λ empty.
      if empty
      then ok c
      else LinkedList.first_elem c.list c.heap >>= λ item. delete fd item c >>= destroy fd fuel

  -- The loop of `connection_get`, from `item` on.
  unfoldable pub search : (A → Bool) → (fuel : ℕ) → (item : ℕ) → Collection A → Run (Option ℕ)
  search test zero item c = blocked
  search test (suc fuel) item c =
      let later = LinkedList.load_next c.heap item >>= λ next. search test fuel next c in
      if LinkedList.is_valid_elem c.list item
      then if test (c.entry item) then ok (some item) else later
      else ok none

  unfoldable pub get : (A → Bool) → (fuel : ℕ) → Collection A → Run (Option ℕ)
  unfolding search
  get test fuel c = LinkedList.first_elem c.list c.heap >>= λ item. search test fuel item c
