-- ===== src/Safety/Send.antt =====
-- `sendCallback` keeps the object discipline: it deletes its own connection, and no other.
use online_chat_proj.Base.{
  ℕ, ◌≡◌, ◌≢◌, refl, sym, ap, subst, ◌∙◌, none, some, arith, leb, update, inl, inr, Bool-cases,
  Option-cases,
}
use online_chat_proj.Base.Int.{ℤ, pos, negsuc, update_ℤ_ne}
use online_chat_proj.Os.{Kernel, EpollEvent, ctl_del}
use online_chat_proj.Os.Laws.{KernelLaws}
use online_chat_proj.Connection.{Connection, send_buffer_length, set_w_len}
use online_chat_proj.Machine.{Machine, ◌>>=◌}
use online_chat_proj.Machine.Object.{holding, load-holding, modify-holding, holding_self}
use online_chat_proj.Epoll.Update.{with_conn, delete_watched}
use online_chat_proj.Epoll.{action_delete, update_connection}
use online_chat_proj.Server.{c_string, copy_text, write_from, send_callback}
use online_chat_proj.Safety.Safely.{Safely, returns, overruns, overreads, bind}
use online_chat_proj.Safety.View.{
  Core, core, core_at, fd-ne, addr-ne, Live, Known, QuietLaws, Inv, Post, Quiet-trans,
}

module _ {W : Type 0} (m : Machine W) (p : ℕ) (fd : ℤ) (w : W) where
  -- The machine without the object at `p`, which had descriptor `fd`.
  abbrev pub without : Machine W
  without = record m { world = w; heap = update m.heap p none; epoll = with_conn m.epoll fd none }

  Live-without : {q : ℕ} {k : Core} → p ≢ q → fd ≢ k.fd → Live m q k → Live without q k
  Live-without {q} {k} ne apart l = record {
    here = ground (arith, l.here);
    mapped = update_ℤ_ne m.epoll.conn_map fd k.fd none apart ∙ l.mapped;
    watched = l.watched;
    wired = l.wired;
  }

module _ {W : Type 0} {K : Kernel W} (L : KernelLaws K) (m : Machine W) (p : ℕ) where
  delete-Post :
      (k : Core) (w : W)
      → Inv L m
      → Live m p k
      → QuietLaws L m.epoll.epfd m.world w
      → Post L m p
          (without m p k.fd (K.close k.fd (K.epoll_ctl m.epoll.epfd ctl_del k.fd none w).1))
  delete-Post k w inv live quiet = record {
    inv = record { unused = λ q le. ground (arith, inv.unused q le); known = known };
    others = λ q ne r.
        let apart = fd-ne live r.live ne in
        record {
          obj = r.obj;
          live = Live-without m p k.fd _ (λ e. ne (sym e)) apart r.live;
          open_fd = L.close_kept k.fd _ r.obj.fd (λ e. apart (sym e)) (all.kept r.obj.fd r.open_fd);
          sends = r.sends;
        };
  }
    where
      w1 : W
      w1 = (K.epoll_ctl m.epoll.epfd ctl_del k.fd none w).1

      all : QuietLaws L m.epoll.epfd m.world w1
      all = Quiet-trans L quiet (L.del_quiet m.epoll.epfd k.fd w)

      keep :
          (g : ℤ) (ev : EpollEvent)
          → k.fd ≢ g
          → Known m g ev
          → Known (without m p k.fd (K.close k.fd w1)) g ev
      keep g ev ne n = record {
        addr = n.addr;
        obj = n.obj;
        live =
            Live-without m p k.fd _ (addr-ne live n.live (λ e. ne (sym e ∙ n.own)))
              (λ e. ne (e ∙ n.own)) n.live;
        own = n.own;
        carries = n.carries;
        sends = n.sends;
      }

      known :
          (g : ℤ) (ev : EpollEvent)
          → L.registered m.epoll.epfd (K.close k.fd w1) g ≡ some ev
          → Known (without m p k.fd (K.close k.fd w1)) g ev
      known g ev h =
          let old = L.close_sub m.epoll.epfd k.fd w1 g ev h in
          keep g ev
            (λ e. cc (L.del_removes m.epoll.epfd k.fd w, old, ap (L.registered m.epoll.epfd w1) e))
            (inv.known g ev (all.sub g ev old))

  -- The write touches no object.
  write_from-Safely :
      (c d : Connection) (w : W) (n : ℤ)
      → Safely
          (λ (_ : ℤ) m'. (w' : W) × (m' ≡ holding m w' p d) × QuietLaws L m.epoll.epfd w w')
          (write_from K c n (holding m w p d))
  unfolding write_from
  write_from-Safely c d w (pos n) = elim (Bool-cases (leb n send_buffer_length)) [
    | inl fits ↦ rw fits (returns (_, refl, L.write_quiet m.epoll.epfd c.fd _ w))
    | inr over ↦ rw over overruns
  ]
  write_from-Safely c d w (negsuc n) = overruns

  module _ (c : Connection) (inv : Inv L m) (live : Live m p (core c)) where
    -- What follows the copy, on the connection `d` that holds the reply.
    finish-Safely :
        (d : Connection)
        → core d ≡ core c
        → Safely
            (λ _. Post L m p)
            ((write_from K d d.wlen >>= λ (_ : ℤ). update_connection K p action_delete)
              (holding m m.world p d))
    finish-Safely d same = bind (write_from-Safely d d m.world d.wlen) λ _ m1 (w', form, quiet).
        rw (form, delete_watched K m w' p d (ap (λ (k : Core). k.in_epoll) same ∙ live.watched))
          (returns (delete-Post (core d) w' inv (subst (Live m p) (sym same) live) quiet))

    send_callback-holding : Safely (λ _. Post L m p) (send_callback K p (holding m m.world p c))
    unfolding send_callback copy_text set_w_len
    send_callback-holding =
        rw (load-holding m m.world p c) (elim (Option-cases (c_string c.rbuffer)) [
          | inl e ↦ rw e overreads
          | inr (text, e) ↦
              rw
                (
                  e,
                  modify-holding m m.world p c (copy_text text),
                  modify-holding m m.world p (copy_text text c) (set_w_len c.rlen),
                  load-holding m m.world p (set_w_len c.rlen (copy_text text c)),
                )
                (finish-Safely (set_w_len c.rlen (copy_text text c)) refl)
        ])

  pub send_callback-Safely :
      (k : Core) → Inv L m → Live m p k → Safely (λ _. Post L m p) (send_callback K p m)
  send_callback-Safely k inv live =
      let (c, here, is) = core_at m p live.here in
      subst (λ n. Safely (λ _. Post L m p) (send_callback K p n)) (sym (holding_self m p here))
        (send_callback-holding c inv (subst (Live m p) (sym is) live))
