-- ===== src/Epoll/Update.antt =====
-- `Epoll::updateConnection` on every branch.
use online_chat_proj.Base.{
  Bool-cases, inl, inr, Bool, refl, sym, ◌∙◌, if◌then◌else◌, ℕ, ◌≡◌, true, false, Option, none,
  some, update, update_self, update-update,
}
use online_chat_proj.Base.Int.{ℤ, update_ℤ}
use online_chat_proj.Os.{Kernel, ctl_add, ctl_mod, ctl_del}
use online_chat_proj.Connection.{Connection, set_in_epoll, destroy}
use online_chat_proj.Machine.{Machine, Epoll, ok, load}
use online_chat_proj.Machine.Object.{holding, load-holding, modify-holding}
use online_chat_proj.Epoll.{
  action_update, action_delete, set_conn, delete, modify_event, add_event, remove,
  update_connection,
}

if_true : {A : Type 0} {b : Bool} (x y : A) → b ≡ true → (if b then x else y) ≡ x
if_true x y h = rw h refl

if_false : {A : Type 0} {b : Bool} (x y : A) → b ≡ false → (if b then x else y) ≡ y
if_false x y h = rw h refl

-- The map with the entry of one descriptor replaced.
abbrev pub with_conn : Epoll → ℤ → Option ℕ → Epoll
with_conn e fd p = record e { conn_map = update_ℤ e.conn_map fd p }

module _ {W : Type 0} (K : Kernel W) where
  -- The state of the system after `epoll_ctl`, and after the deletion of a connection.
  abbrev pub after_mod : Epoll → Connection → W → W
  after_mod e c w = (K.epoll_ctl e.epfd ctl_mod c.fd (some c.event) w).1

  abbrev pub after_add : Epoll → Connection → W → W
  after_add e c w = (K.epoll_ctl e.epfd ctl_add c.fd (some c.event) w).1

  abbrev pub after_remove : Epoll → Connection → W → W
  after_remove e c w = K.close c.fd (K.epoll_ctl e.epfd ctl_del c.fd none w).1

  module _ (m : Machine W) (w : W) (p : ℕ) (c : Connection) where
    pub update_watched :
        c.in_epoll ≡ true
        → update_connection K p action_update (holding m w p c)
          ≡ ok tt (holding m (after_mod m.epoll c w) p c)
    unfolding update_connection modify_event
    update_watched h = rw (load-holding m w p c) (simp h (rw (load-holding m w p c)))

    pub update_new :
        c.in_epoll ≡ false
        → update_connection K p action_update (holding m w p c)
          ≡ ok tt (record (holding m (after_add m.epoll c w) p (set_in_epoll c)) {
            epoll = with_conn m.epoll c.fd (some p);
          })
    unfolding update_connection add_event set_conn
    update_new h = rw (load-holding m w p c) (
        simp h
          (rw (load-holding m w p c, modify-holding m (after_add m.epoll c w) p c set_in_epoll)))

    pub delete_watched :
        c.in_epoll ≡ true
        → update_connection K p action_delete (holding m w p c)
          ≡ ok tt (record m {
            world = after_remove m.epoll c w;
            heap = update m.heap p none;
            epoll = with_conn m.epoll c.fd none;
          })
    unfolding update_connection remove set_conn delete destroy load
    delete_watched h = rw (update_self m.heap p (some c)) (
        simp h (
          rw (update_self m.heap p (some c))
            (rw (update_self m.heap p (some c)) (rw (update-update m.heap p (some c) none)))))

    delete_unwatched :
        c.in_epoll ≡ false
        → update_connection K p action_delete (holding m w p c) ≡ ok tt (holding m w p c)
    unfolding update_connection
    delete_unwatched h = rw (load-holding m w p c) (simp h)

    -- `updateConnection` on a live connection, on all four branches: an update of a watched
    -- connection changes its event; an update of another adds it to the system's set and to the map,
    -- and marks it; a deletion of a watched connection takes it out of both, closes and deletes it;
    -- a deletion of another does nothing.
    pub update_connection_lem :
        (update_connection K p action_update (holding m w p c) ≡ (
          if c.in_epoll
          then ok tt (holding m (after_mod m.epoll c w) p c)
          else ok tt (record (holding m (after_add m.epoll c w) p (set_in_epoll c)) {
            epoll = with_conn m.epoll c.fd (some p);
          })))
        × (update_connection K p action_delete (holding m w p c) ≡ (
            if c.in_epoll
            then ok tt (record m {
              world = after_remove m.epoll c w;
              heap = update m.heap p none;
              epoll = with_conn m.epoll c.fd none;
            })
            else ok tt (holding m w p c)))
    update_connection_lem = elim (Bool-cases c.in_epoll) [
      | inl h ↦ (update_watched h ∙ sym (if_true _ _ h), delete_watched h ∙ sym (if_true _ _ h))
      | inr h ↦ (update_new h ∙ sym (if_false _ _ h), delete_unwatched h ∙ sym (if_false _ _ h))
    ]
