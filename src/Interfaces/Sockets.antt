-- ===== src/Interfaces/Sockets.antt =====
-- Which sockets capture/src/interface.c opens, uses and closes.
use mathlib.Core.Path.{subst}
use multiprocessor.Common.{
  sym, Run, Option-cases, ltb, ok, inr, inl, ◌+◌, ap, Bool-cases, ◌∙◌, refl, false, ℕ, ◌∷◌, map,
  length, List, some, if◌then◌else◌, ◌++◌, count, [], arith, ◌<◌, true, ◌==◌, none, ◌≡◌,
}
use mathlib.Core.List.{append_assoc, append-nil}
use multiprocessor.Collections.{Collection, put}
use multiprocessor.Collections.Laws.{IsValid, add-append, destroy-IsValid}
use multiprocessor.LinkedList.Sequence.{is_new}
use multiprocessor.LinkedList.Refinement.{init-Holds}
use multiprocessor.Gvcp.{discovery_packet, encode}
use multiprocessor.Interfaces.{
  Interface, IfAddr, Found, no_fd, is_usable, with_fd, interface_add, ifaces_init, ifaces_destroy,
  send_broadcast_discovery, enter_interfaces, prepare_interfaces_list,
}

-- The interfaces that are entered.
abbrev pub usable : List IfAddr → List IfAddr
usable [] = []
usable (a ∷ addrs) = let rest = usable addrs in if is_usable a then a ∷ rest else rest

-- The sockets that can be made.
abbrev pub made : List IfAddr → List ℕ
made [] = []
made (a ∷ addrs) = elim a.socket [ none ↦ made addrs | some fd ↦ fd ∷ made addrs ]

-- What stands for each interface's socket: the socket where it can be bound, else -1.
abbrev pub socket_of : IfAddr → ℕ
socket_of a = elim a.socket [ none ↦ no_fd | some fd ↦ if a.bound then fd else no_fd ]

-- One discovery from each bound socket.
abbrev pub discoveries : List IfAddr → List (ℕ × List ℕ)
discoveries [] = []
discoveries (a ∷ addrs) = elim a.socket [
  | none ↦ discoveries addrs
  | some fd ↦
      let rest = discoveries addrs in if a.bound then (fd, encode discovery_packet) ∷ rest else rest
]

abbrev pub addresses : List IfAddr → List ℕ
addresses addrs = map (λ a. a.address) addrs

-- What `malloc` gives for each interface is new, and the names fit.
abbrev pub AllNew : (list : ℕ) → (xs : List ℕ) → List IfAddr → Type 0
AllNew list xs [] = Unit
AllNew list xs (a ∷ addrs) =
    (is_new list a.address xs ≡ true)
    × (length a.ifa_name < 80)
    × AllNew list (xs ++ a.address ∷ []) addrs

abbrev fds : Collection Interface → List ℕ → List ℕ
fds c xs = map (λ x. (c.entry x).fd) xs

-- A list that holds the structs at `xs`, with these sockets.
record Has (c : Collection Interface) (list : ℕ) (xs sockets : List ℕ) : Type 0 where
  pub valid : IsValid c xs
  pub at : c.list ≡ list
  pub owned : fds c xs ≡ sockets
  pub open_yet : c.closed ≡ []

fds-put :
    (f : ℕ → Interface) (a : ℕ) (v : Interface) (xs : List ℕ)
    → count a xs ≡ 0
    → map (λ x. (put f a v x).fd) xs ≡ map (λ x. (f x).fd) xs
fds-put f a v [] absent = refl
fds-put f a v (x ∷ xs) absent =
    let other : (x == a) ≡ false = ground (arith, absent) in
    let rest = fds-put f a v xs (ground (arith, absent)) in rw (other, rest) refl

fds-append :
    (f : ℕ → Interface) (xs : List ℕ) (a : ℕ)
    → map (λ x. (f x).fd) (xs ++ a ∷ []) ≡ map (λ x. (f x).fd) xs ++ (f a).fd ∷ []
fds-append f [] a = refl
fds-append f (x ∷ xs) a = ap (λ t. (f x).fd ∷ t) (fds-append f xs a)

-- One interface more.
enter-Has :
    (a : IfAddr) (fd : ℕ) (c : Collection Interface) (list : ℕ) (xs sockets : List ℕ)
    → Has c list xs sockets
    → is_new list a.address xs ≡ true
    → length a.ifa_name < 80
    → (c' : Collection Interface) × (interface_add a.address a.ifa_name a.ifa_addr c ≡ ok c')
      × Has (with_fd a.address fd c') list (xs ++ a.address ∷ []) (sockets ++ fd ∷ [])
unfolding interface_add
enter-Has a fd c list xs sockets has new short =
    let value : Interface = record { fd = no_fd; name = a.ifa_name; addr = a.ifa_addr } in
    let new' : is_new c.list a.address xs ≡ true = rw has.at new in
    let (h, ran, valid) = add-append a.address value c xs has.valid new' in
    let fits : ltb (length a.ifa_name) 80 ≡ true = ground (arith, short) in
    let absent : count a.address xs ≡ 0 = ground (arith, new) in
    let entry = put c.entry a.address value in
    let self : (a.address == a.address) ≡ true = ground arith in
    let entry' = put entry a.address (record (entry a.address) { fd = fd }) in
    let mine : (entry' a.address).fd ≡ fd = rw self refl in
    (
      record c { heap = h; cnt = c.cnt + 1; entry = entry },
      rw fits ran,
      record {
        valid = record { holds = valid.holds; counted = valid.counted };
        at = has.at;
        owned =
            fds-append entry' xs a.address
            ∙ ap (λ t. t ++ (entry' a.address).fd ∷ [])
                (fds-put entry a.address (record (entry a.address) { fd = fd }) xs absent
                  ∙ fds-put c.entry a.address value xs absent
                  ∙ has.owned)
            ∙ ap (λ n. sockets ++ n ∷ []) mine;
        open_yet = has.open_yet;
      },
    )

sent_lem :
    (a : IfAddr) → send_broadcast_discovery a ≡ (socket_of a, made (a ∷ []), discoveries (a ∷ []))
unfolding send_broadcast_discovery
sent_lem a = elim (Option-cases a.socket) [
  | inl none_made ↦ rw (send_broadcast_discovery, socket_of, made, discoveries, none_made) refl
  | inr (fd, some_made) ↦ elim (Bool-cases a.bound) [
    | inl bound ↦ rw (send_broadcast_discovery, socket_of, made, discoveries, some_made, bound) refl
    | inr free ↦ rw (send_broadcast_discovery, socket_of, made, discoveries, some_made, free) refl
  ]
]

made-cons : (a : IfAddr) (addrs : List IfAddr) → made (a ∷ addrs) ≡ made (a ∷ []) ++ made addrs
made-cons a addrs = elim (Option-cases a.socket) [
  | inl none_made ↦ rw (made, none_made) refl
  | inr (fd, some_made) ↦ rw (made, some_made) refl
]

discoveries-cons :
    (a : IfAddr) (addrs : List IfAddr)
    → discoveries (a ∷ addrs) ≡ discoveries (a ∷ []) ++ discoveries addrs
discoveries-cons a addrs = elim (Option-cases a.socket) [
  | inl none_made ↦ rw (discoveries, none_made) refl
  | inr (fd, some_made) ↦ elim (Bool-cases a.bound) [
    | inl bound ↦ rw (discoveries, some_made, bound) refl
    | inr free ↦ rw (discoveries, some_made, free) refl
  ]
]

-- What the loop leaves of the usable ones among some addresses.
record Entered (addrs : List IfAddr) (f : Found) (list : ℕ) (xs sockets : List ℕ) (r : Run Found)
    : Type 0 where
  pub left : Found
  pub ran : r ≡ ok left
  pub has : Has left.ifaces list (xs ++ addresses addrs) (sockets ++ map socket_of addrs)
  pub opened : left.opened ≡ f.opened ++ made addrs
  pub sent : left.sent ≡ f.sent ++ discoveries addrs

enter_interfaces-usable :
    (a : IfAddr) (addrs : List IfAddr) (f : Found) (ifaces : Collection Interface)
    → is_usable a ≡ true
    → (a.address == 0) ≡ false
    → interface_add a.address a.ifa_name a.ifa_addr f.ifaces ≡ ok ifaces
    → enter_interfaces (a ∷ addrs) f
      ≡ enter_interfaces addrs (record {
        ifaces = with_fd a.address (socket_of a) ifaces;
        opened = f.opened ++ made (a ∷ []);
        sent = f.sent ++ discoveries (a ∷ []);
      })
unfolding enter_interfaces
enter_interfaces-usable a addrs f ifaces fine nonnull added =
    rw (enter_interfaces, fine, nonnull, sent_lem a, added) refl

enter_interfaces_lem :
    (addrs : List IfAddr) (f : Found) (list : ℕ) (xs sockets : List ℕ)
    → Has f.ifaces list xs sockets
    → AllNew list xs (usable addrs)
    → Entered (usable addrs) f list xs sockets (enter_interfaces addrs f)
unfolding enter_interfaces
enter_interfaces_lem [] f list xs sockets has new = record {
  left = f;
  ran = refl;
  has = rw (append-nil xs, append-nil sockets) has;
  opened = sym (append-nil f.opened);
  sent = sym (append-nil f.sent);
}
enter_interfaces_lem (a ∷ addrs) f list xs sockets has new = elim (Bool-cases (is_usable a)) [
  | inr unfit ↦
      let same : usable (a ∷ addrs) ≡ usable addrs = rw (usable, unfit) refl in
      let rest =
        enter_interfaces_lem addrs f list xs sockets has (subst (λ u. AllNew list xs u) same new) in
      subst (λ u. Entered u f list xs sockets (enter_interfaces (a ∷ addrs) f)) (sym same)
        (record {
          left = rest.left;
          ran = rw (enter_interfaces, unfit) rest.ran;
          has = rest.has;
          opened = rest.opened;
          sent = rest.sent;
        })
  | inl fine ↦
      let more : usable (a ∷ addrs) ≡ a ∷ usable addrs = rw (usable, fine) refl in
      let (first, short, later) = subst (λ u. AllNew list xs u) more new in
      let (c, added, has') = enter-Has a (socket_of a) f.ifaces list xs sockets has first short in
      let g : Found = record {
        ifaces = with_fd a.address (socket_of a) c;
        opened = f.opened ++ made (a ∷ []);
        sent = f.sent ++ discoveries (a ∷ []);
      } in
      let rest =
        enter_interfaces_lem addrs g list (xs ++ a.address ∷ []) (sockets ++ socket_of a ∷ []) has'
          later in
      subst (λ u. Entered u f list xs sockets (enter_interfaces (a ∷ addrs) f)) (sym more)
        (record {
          left = rest.left;
          ran = enter_interfaces-usable a addrs f c fine (ground (arith, first)) added ∙ rest.ran;
          has =
              subst
                (λ u.
                  Has rest.left.ifaces list u
                    (sockets ++ socket_of a ∷ map socket_of (usable addrs)))
                (append_assoc xs (a.address ∷ []) (addresses (usable addrs)))
                (subst
                  (λ u.
                    Has rest.left.ifaces list ((xs ++ a.address ∷ []) ++ addresses (usable addrs))
                      u)
                  (append_assoc sockets (socket_of a ∷ []) (map socket_of (usable addrs)))
                  rest.has);
          opened =
              rest.opened
              ∙ append_assoc f.opened (made (a ∷ [])) (made (usable addrs))
              ∙ ap (λ t. f.opened ++ t) (sym (made-cons a (usable addrs)));
          sent =
              rest.sent
              ∙ append_assoc f.sent (discoveries (a ∷ [])) (discoveries (usable addrs))
              ∙ ap (λ t. f.sent ++ t) (sym (discoveries-cons a (usable addrs)));
        })
]

-- Where the structs are new and the names fit, the interfaces that are up, not point to point and have
-- an address of IPv4 are entered in order, and a discovery is sent from each socket that could be
-- bound. Emptying the list closes, in order, what stands for each socket: the bound socket, or -1; so
-- of the sockets that were made those stay open that could not be bound.
pub prepare-destroy :
    (list : ℕ) (addrs : List IfAddr) (fuel : ℕ)
    → (list == 0) ≡ false
    → AllNew list [] (usable addrs)
    → length (addresses (usable addrs)) < fuel
    → (f : Found) × (prepare_interfaces_list list (some addrs) ≡ ok (some f))
      × IsValid f.ifaces (addresses (usable addrs))
      × (f.opened ≡ made (usable addrs))
      × (f.sent ≡ discoveries (usable addrs))
      × (c : Collection Interface) × (ifaces_destroy fuel f.ifaces ≡ ok c)
      × IsValid c []
      × (c.closed ≡ map socket_of (usable addrs))
unfolding prepare_interfaces_list ifaces_init ifaces_destroy
prepare-destroy list addrs fuel nonnull new enough =
    let k =
      init-Holds (record { next = λ x. 0; prev = λ x. 0 }) list nonnull (λ x gone. (refl, refl)) in
    let ifaces : Collection Interface = record {
      list = list;
      heap = k.heap;
      cnt = 0;
      entry = λ x. record { fd = 0; name = []; addr = none };
      closed = [];
    } in
    let start : Found = record { ifaces = ifaces; opened = []; sent = [] } in
    let e =
      enter_interfaces_lem addrs start list [] []
        (record {
          valid = record { holds = k.holds; counted = refl };
          at = refl;
          owned = refl;
          open_yet = refl;
        })
        new in
    let (c, ran, done, closed) =
      destroy-IsValid (λ iface. iface.fd) fuel e.left.ifaces (addresses (usable addrs)) e.has.valid
        enough in
    (
      e.left,
      rw (k.ran, e.ran) refl,
      e.has.valid,
      e.opened,
      e.sent,
      c,
      ran,
      done,
      closed
          ∙ ap (λ t. t ++ fds e.left.ifaces (addresses (usable addrs))) e.has.open_yet
          ∙ e.has.owned,
    )
