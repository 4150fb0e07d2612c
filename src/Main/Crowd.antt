-- ===== src/Main/Crowd.antt =====
-- The program of apps/test-main.cpp from its start, with clients whose events come in any order.
use online_chat_proj.Base.{
  refl, ℕ, ◌<◌, ◌≡◌, ◌≢◌, sym, ap, ◌∙◌, subst, false, none, arith, update_ne,
}
use online_chat_proj.Base.Int.{ℤ, minus_one, ◌==ℤ◌}
use online_chat_proj.Os.{Kernel}
use online_chat_proj.Connection.{Connection, recv_buffer_length}
use online_chat_proj.Machine.{Machine, ok}
use online_chat_proj.Log.{errif}
use online_chat_proj.Epoll.{new_epoll}
use online_chat_proj.Server.{Server}
use online_chat_proj.Server.Create.{created, bound, listens, watching, new_server-Idle}
use online_chat_proj.Server.Visits.{Idle}
use online_chat_proj.Reactor.{Clients, no_clients, Rounds}
use online_chat_proj.Reactor.View.{Supplies, Represents}
use online_chat_proj.Reactor.Loop.{serve-Rounds}
use online_chat_proj.Main.{boot, main}
use online_chat_proj.Main.Service.{polling, listening}

-- A server with no other object in memory has no clients.
pub Idle-Represents :
    {W : Type 0} {l : ℕ} {fd : ℤ} {m : Machine W}
    → Idle l fd m
    → fd ≢ minus_one
    → ((q : ℕ) → l ≢ q → m.heap q ≡ none)
    → Represents l fd m no_clients
Idle-Represents i real empty = record {
  sock = i.sock;
  here = i.here;
  own = i.same_fd;
  accepts = i.bound;
  mapped = i.mapped;
  real = real;
  apart = refl;
  nobody = refl;
  clients = λ g ph e. absurd (cc);
  objects = λ q c free e. absurd (cc (e, empty q (λ h. free (sym h))));
  unused = λ q h. let old = i.old in empty q (omega arith);
}

module _ {W : Type 0} (K : Kernel W) (raw : Server) (w : W) (junk : ℕ → Connection) where
  -- On a server whose storage is zero, and with a system that grants the epoll instance and the
  -- listening socket: through rounds whose events are of the listening socket and of any number of
  -- clients, in any order and each descriptor at most once a round, the program gets, if each event is
  -- one that `Turn` has. The listening socket is reported for input, whether `accept` succeeds or not,
  -- and a success gives a descriptor not in use; a client that was not heard is reported for input,
  -- with a message shorter than the buffer, and one that was heard for output and not for input; and
  -- each of them may be reported for neither. Each event is answered as `Turn` says: a client is sent
  -- as many bytes as were read from it, its text up to the first zero byte and that byte, and behind it
  -- what the storage of its connection held in the place of the send buffer; a message with no zero
  -- byte comes back whole. The memory holds the listening socket, the connections of the clients that
  -- are left and those that a failed `accept` has left, and nothing else.
  pub main-Rounds :
      (fuel n : ℕ) {k : ℕ} {cl : Clients} {w' : W}
      → raw.loop ≡ none
      → ((K.epoll_create w).0 ==ℤ minus_one) ≡ false
      → ((created K raw (polling K raw w junk)).0 ==ℤ minus_one) ≡ false
      → ((bound K raw (polling K raw w junk)).0 ==ℤ minus_one) ≡ false
      → ((listens K raw (polling K raw w junk)).0 ==ℤ minus_one) ≡ false
      → recv_buffer_length < fuel
      → Rounds K
          (λ q. (junk q).wbuffer)
          (K.epoll_create w).0
          (listening K raw w junk)
          minus_one
          n
          (watching K raw (polling K raw w junk))
          1
          no_clients
          w'
          k
          cl
      → (m' : Machine W) × (main K raw fuel n (boot w junk) ≡ ok tt m')
        × (m'.world ≡ w')
        × Represents 0 (listening K raw w junk) m' cl
  unfolding main new_epoll errif
  main-Rounds fuel n {k} {cl} {w'} zeroed polls c b l enough rs =
      let start = polling K raw w junk in
      let spare = λ (q : ℕ). (junk q).wbuffer in
      let fd = listening K raw w junk in
      let (m1, made, idle, there, e, same, next, junk_same) =
        new_server-Idle K raw start 0 zeroed c b l (λ q. refl) in
      let r =
        Idle-Represents idle (λ e. cc (c, e))
          (λ q ne. same q ∙ update_ne start.heap 0 q (m1.heap 0) ne) in
      let rs' =
        subst (λ v. Rounds K spare m1.epoll.epfd fd minus_one n v 1 no_clients w' k cl) (sym there)
          (subst (λ x. Rounds K spare x fd minus_one n (watching K raw start) 1 no_clients w' k cl)
            (sym e) rs) in
      let s : Supplies spare 1 m1 = record {
        next = next;
        junk = λ q. ap (λ (f : ℕ → Connection). (f q).wbuffer) junk_same;
      } in
      let (m2, run, there', r', _) = serve-Rounds K spare fuel 0 fd enough minus_one n m1 r s rs' in
      (m2, rw (polls, made) run, there', r')
