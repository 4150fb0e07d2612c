-- ===== src/Server/Create/Fails.antt =====
-- The constructor `Server::Server` of src/Server.cpp where a call of the system fails.
use online_chat_proj.Base.{ℕ, suc, ◌≡◌, refl, true, false, Option, none, some, update-update}
use online_chat_proj.Base.Int.{pos, minus_one, ◌==ℤ◌}
use online_chat_proj.Os.{Kernel}
use online_chat_proj.InetAddress.{address}
use online_chat_proj.Connection.{default_connection}
use online_chat_proj.Machine.{Machine, exited, alloc}
use online_chat_proj.Machine.Object.{load-holding}
use online_chat_proj.Log.{errif}
use online_chat_proj.Socket
use online_chat_proj.Server.{Server, new_server}
use online_chat_proj.Server.Create.{created, bound, listens}

module _ {W : Type 0} (K : Kernel W) (raw : Server) (m : Machine W) (loop : Option ℕ)
    (zeroed : raw.loop ≡ none) where
  pub new_server-no_socket :
      ((created K raw m).0 ==ℤ minus_one) ≡ true
      → new_server K raw loop m ≡ exited (K.perror "socket create failed!" (created K raw m).1)
  unfolding new_server errif Socket.new_socket alloc
  new_server-no_socket c = rw (zeroed, c) refl

  module _ (c : ((created K raw m).0 ==ℤ minus_one) ≡ false) where
    pub new_server-unbound :
        ((bound K raw m).0 ==ℤ minus_one) ≡ true
        → new_server K raw loop m ≡ exited (K.perror "bind error!" (bound K raw m).1)
    unfolding new_server errif Socket.new_socket alloc Socket.bind
    new_server-unbound b =
        let more = record m { next = suc m.next } in
        let d = default_connection (m.junk m.next) in
        let fd = (created K raw m).0 in
        let s = record d { fd = fd; inet_addr = some (address K "127.0.0.1" (pos 8080)) } in
        rw
          (
            zeroed,
            c,
            load-holding more (created K raw m).1 m.next d,
            update-update m.heap m.next (some d) (some s),
            load-holding more (created K raw m).1 m.next s,
            b,
          )
          refl

    pub new_server-deaf :
        ((bound K raw m).0 ==ℤ minus_one) ≡ false
        → ((listens K raw m).0 ==ℤ minus_one) ≡ true
        → new_server K raw loop m ≡ exited (K.perror "listen error!" (listens K raw m).1)
    unfolding new_server errif Socket.new_socket alloc default_connection Socket.bind Socket.listen
    new_server-deaf b l =
        let more = record m { next = suc m.next } in
        let d = default_connection (m.junk m.next) in
        let fd = (created K raw m).0 in
        let s = record d { fd = fd; inet_addr = some (address K "127.0.0.1" (pos 8080)) } in
        rw
          (
            zeroed,
            c,
            load-holding more (created K raw m).1 m.next d,
            update-update m.heap m.next (some d) (some s),
            load-holding more (created K raw m).1 m.next s,
            b,
            load-holding more (bound K raw m).1 m.next s,
            l,
          )
          refl
