-- ===== src/Safety/Loop.antt =====
-- The reactor: `wait` returns connections that exist, each once, and serving one of them leaves the
-- others as they have to be.
use online_chat_proj.Base.{ℕ, zero, suc, ◌≡◌, ap, ◌∙◌, inl, inr, List, [], ◌∷◌, Bool-cases}
use online_chat_proj.Base.Int.{ℤ}
use online_chat_proj.Os.{Kernel, has_flag, epollin, epollout}
use online_chat_proj.Os.Laws.{KernelLaws}
use online_chat_proj.Connection.{Connection, send_handler}
use online_chat_proj.Machine.{Machine}
use online_chat_proj.Machine.Object.{load-ok}
use online_chat_proj.EventLoop
use online_chat_proj.EventLoop.{dispatch, dispatch_all, exe_recv_callback, exe_send_callback}
use online_chat_proj.Server.{call, serve}
use online_chat_proj.Safety.Safely.{Safely, returns, bind}
use online_chat_proj.Safety.View.{
  Core, core, core_at, bound, Wired, listener, client, Live, Inv, Ready, Post,
}
use online_chat_proj.Safety.Receive.{recv_callback-Safely}
use online_chat_proj.Safety.Send.{send_callback-Safely}
use online_chat_proj.Safety.Wait.{NotIn, AllReady, wait-Safely}
use online_chat_proj.Safety.Accept.{accept_callback-Safely}

module _ {W : Type 0} {K : Kernel W} (L : KernelLaws K) (fuel : ℕ) where
  AllReady-Post :
      {m m' : Machine W} {p : ℕ} (ps : List ℕ)
      → Post L m p m'
      → NotIn p ps
      → AllReady L m ps
      → AllReady L m' ps
  AllReady-Post [] post out rs = tt
  AllReady-Post (q ∷ qs) post out rs =
      (post.others q out.0 rs.0, rs.1, AllReady-Post qs post out.1 rs.2)

  skip-Post : (m : Machine W) (p : ℕ) → Inv L m → Post L m p m
  skip-Post m p inv = record { inv = inv; others = λ q ne r. r }

  exe_recv-Safely :
      (m : Machine W) (p : ℕ)
      → Inv L m
      → Ready L m p
      → Safely (λ _. Post L m p) (exe_recv_callback (call K fuel) p m)
  unfolding exe_recv_callback call
  exe_recv-Safely m p inv r =
      let (c, here, is) = core_at m p r.live.here in rw (load-ok m p here) (go c is r.live.wired)
    where
      go :
          (c : Connection)
          → core c ≡ r.obj
          → Wired p r.obj
          → Safely (λ _. Post L m p) (EventLoop.invoke (call K fuel) c.recv_callback m)
      go c is (listener e) =
          rw (ap (λ (k : Core). k.recv_callback) is ∙ e)
            (accept_callback-Safely L m p r.obj inv r.live)
      go c is (client e f) =
          rw (ap (λ (k : Core). k.recv_callback) is ∙ e)
            (recv_callback-Safely L fuel m p r.obj inv r.live f)

  exe_send-Safely :
      (m : Machine W) (p : ℕ) (k : Core)
      → Inv L m
      → Live m p k
      → k.send_callback ≡ bound send_handler p
      → Safely (λ _. Post L m p) (exe_send_callback (call K fuel) p m)
  unfolding exe_send_callback call
  exe_send-Safely m p k inv live sends =
      let (c, here, is) = core_at m p live.here in
      rw (load-ok m p here, ap (λ (k : Core). k.send_callback) is ∙ sends)
        (send_callback-Safely L m p k inv live)

  dispatch-Safely :
      (m : Machine W) (p : ℕ)
      → Inv L m
      → Ready L m p
      → Safely (λ _. Post L m p) (dispatch (call K fuel) p m)
  unfolding dispatch
  dispatch-Safely m p inv r =
      let (c, here, is) = core_at m p r.live.here in
      let flags = ap (λ (k : Core). k.revent.events) is in
      rw (load-ok m p here, flags)
        (elim (Bool-cases (has_flag r.obj.revent.events epollin)) [
          | inl e ↦ rw e (exe_recv-Safely m p inv r)
          | inr e ↦ rw e (elim (Bool-cases (has_flag r.obj.revent.events epollout)) [
            | inl f ↦ rw f (exe_send-Safely m p r.obj inv r.live (r.sends f))
            | inr f ↦ rw f (returns (skip-Post m p inv))
          ])
        ])

  dispatch_all-Safely :
      (ps : List ℕ) (m : Machine W)
      → Inv L m
      → AllReady L m ps
      → Safely (λ _. Inv L) (dispatch_all (call K fuel) ps m)
  unfolding dispatch_all
  dispatch_all-Safely [] m inv rs = returns inv
  dispatch_all-Safely (p ∷ ps) m inv rs =
      bind (dispatch-Safely m p inv rs.0)
        λ _ m' post. dispatch_all-Safely ps m' post.inv (AllReady-Post ps post rs.1 rs.2)

  round-Safely :
      (m : Machine W) (timeout : ℤ)
      → Inv L m
      → Safely (λ _. Inv L) (EventLoop.round (call K fuel) K timeout m)
  unfolding EventLoop.round
  round-Safely m timeout inv =
      bind (wait-Safely L m timeout inv) λ ps m' h. dispatch_all-Safely ps m' h.0 h.1

  -- Any number of rounds.
  pub serve-Safely :
      (n : ℕ) (m : Machine W) (timeout : ℤ)
      → Inv L m
      → Safely (λ _. Inv L) (serve K fuel n timeout m)
  unfolding serve EventLoop.start
  serve-Safely zero m timeout inv = returns inv
  serve-Safely (suc n) m timeout inv =
      bind (round-Safely m timeout inv) λ _ m' inv'. serve-Safely n m' timeout inv'
