-- ===== src/Tcp/Server/Entering.antt =====
-- New connections in the list of tcp/src/tcp_process.c.
use mathlib.Core.Path.{subst}
use multiprocessor.Common.{
  if_false, if_true, ◌+◌, fault, count, sym, arith, ◌∙◌, ap, refl, ok, true, ◌∷◌, [], ◌==◌, ◌++◌, ℕ,
  List, false, ◌≡◌,
}
use multiprocessor.LinkedList
use multiprocessor.LinkedList.Sequence.{is_new}
use multiprocessor.LinkedList.Rings.{count-append}
use multiprocessor.Collections.{Collection, put}
use multiprocessor.Collections.Laws.{add-append, destroy-IsValid}
use multiprocessor.Collections.Laws
use multiprocessor.Tcp.{Session}
use multiprocessor.Tcp.Server.{Server, new_session, store_session}
use multiprocessor.Tcp.Server.Service.{
  Serves, IsServed, Each-put, Each-append, fds-append, next_of, fds, head_of,
}

pub stored-IsServed :
    (srv : Server) (x : ℕ) (s : Session)
    → IsServed s
    → IsServed ((store_session x s srv).connections.entry x)
stored-IsServed srv x s served =
    let self : (x == x) ≡ true = ground arith in
    subst IsServed (sym (if_true (x == x) s (srv.connections.entry x) self)) served

-- A socket for which there is no memory.
abbrev pub dropped : (fd : ℕ) → Server → Server
dropped fd srv = record srv {
  connections = record srv.connections { closed = srv.connections.closed ++ fd ∷ [] };
  accepted = srv.accepted ++ fd ∷ [];
}

pub dropped-Serves :
    (fd : ℕ) (srv : Server) (xs : List ℕ) → Serves srv xs → Serves (dropped fd srv) xs
dropped-Serves fd srv xs serves = record {
  valid = record { holds = serves.valid.holds; counted = serves.valid.counted };
  each = serves.each;
  owned = λ d. omega (
    arith,
    serves.owned d,
    count-append d srv.connections.closed (fd ∷ []),
    count-append d srv.accepted (fd ∷ []),
  );
}

new_session-IsServed : (fd : ℕ) → IsServed (new_session fd)
new_session-IsServed fd = record {
  valid = record { size = refl; used = omega arith; whole = refl; single = tt };
  is_open = refl;
}

fds-put :
    (f : ℕ → Session) (a : ℕ) (s : Session) (xs : List ℕ)
    → count a xs ≡ 0
    → fds (put f a s) xs ≡ fds f xs
fds-put f a s [] absent = refl
fds-put f a s (x ∷ xs) absent =
    let other : (x == a) ≡ false = ground (arith, absent) in
    rw (other, fds-put f a s xs (ground (arith, absent))) refl

pub added-Serves :
    (fd a : ℕ) (srv : Server) (xs : List ℕ) (h : LinkedList.Heap)
    → Serves srv xs
    → is_new srv.connections.list a xs ≡ true
    → Laws.IsValid
        (record srv.connections {
          heap = h;
          cnt = srv.connections.cnt + 1;
          entry = put srv.connections.entry a (new_session fd);
        })
        (xs ++ a ∷ [])
    → Serves
        (record srv {
          connections = record srv.connections {
            heap = h;
            cnt = srv.connections.cnt + 1;
            entry = put srv.connections.entry a (new_session fd);
          };
          accepted = srv.accepted ++ fd ∷ [];
        })
        (xs ++ a ∷ [])
added-Serves fd a srv xs h serves new valid =
    let entry = srv.connections.entry in
    let entry' = put entry a (new_session fd) in
    let absent : count a xs ≡ 0 = ground (arith, new) in
    let self : (a == a) ≡ true = ground arith in
    let mine : entry' a ≡ new_session fd = if_true (a == a) (new_session fd) (entry a) self in
    let all : fds entry' (xs ++ a ∷ []) ≡ fds entry xs ++ fd ∷ [] =
      fds-append entry' xs (a ∷ [])
      ∙ ap (λ t. t ++ (entry' a).conn.fd ∷ []) (fds-put entry a (new_session fd) xs absent)
      ∙ ap (λ (s : Session). fds entry xs ++ s.conn.fd ∷ []) mine in
    record {
      valid = valid;
      each =
          Each-append IsServed entry' xs (a ∷ [])
            (Each-put IsServed entry a (new_session fd) xs absent serves.each)
            (subst IsServed (sym mine) (new_session-IsServed fd), tt);
      owned = λ d. omega (
        arith,
        serves.owned d,
        ap (count d) all,
        count-append d (fds entry xs) (fd ∷ []),
        count-append d srv.accepted (fd ∷ []),
      );
    }

pub first_lem :
    (c : Collection Session) (xs : List ℕ)
    → Laws.IsValid c xs
    → LinkedList.first_elem c.list c.heap ≡ ok (head_of c.list xs)
unfolding LinkedList.first_elem
first_lem c xs valid =
    let nonnull : (c.list == 0) ≡ false = ground (arith, valid.holds.ring.apart.nonnull) in
    if_false (c.list == 0) fault (ok (c.heap.next c.list)) nonnull
    ∙ ap ok (next_of c.heap c.list xs c.list valid.holds.ring.links)
