-- ===== src/Bounds/Program.antt =====
-- What can become of a run of apps/test-main.cpp.
use online_chat_proj.Base.{ℕ, ◌<◌}
use online_chat_proj.Os.{Kernel}
use online_chat_proj.Os.Laws.{KernelLaws}
use online_chat_proj.Connection.{Connection, recv_buffer_length}
use online_chat_proj.Server.{Server}
use online_chat_proj.Server.Receive.{Brief}
use online_chat_proj.Main.{boot, main}
use online_chat_proj.Fuel.Enough.{Steady}
use online_chat_proj.Fuel.Total.{main-ne-out_of_fuel}
use online_chat_proj.Safety.View.{Inv}
use online_chat_proj.Safety.Program.{main-Safely}
use online_chat_proj.Bounds.{Sound}
use online_chat_proj.Bounds.Loop.{main-StaysFit}
use online_chat_proj.Bounds.Settles.{Settles, Succeeds, settle}
use online_chat_proj.Bounds.Policies.{lax, strict, Readable}
use online_chat_proj.Bounds.Reads.{lax-LoopStays, strict-LoopStays}

module _ {W : Type 0} {K : Kernel W} (L : KernelLaws K) (steady : Steady K) (fuel : ℕ)
    (enough : recv_buffer_length < fuel) where
  -- On a system that obeys its manual, on which each call of `recv` ends the loop or hands over
  -- bytes, no more than were asked for, and with more fuel than the receive buffer has bytes: every
  -- run of the program, of any number of rounds, returns, ends with a message, or uses a text that
  -- has no end in its buffer. No other fault occurs. Where it returns, every watched descriptor
  -- leads to a live connection with its callbacks, and the lengths of every connection lie in its
  -- buffers.
  pub main-Settles :
      (w : W) (junk : ℕ → Connection) (raw : Server) (n : ℕ)
      → Settles (λ _ m. Inv L m × Sound lax m) (main K raw fuel n (boot w junk))
  main-Settles w junk raw n =
      settle (main-Safely L w junk raw fuel n)
        (main-StaysFit K fuel (lax-LoopStays K fuel steady) raw n (boot w junk)
          ((λ q c e. cc), λ p. tt))
        (main-ne-out_of_fuel K steady fuel enough raw n (boot w junk)) (λ a. a)

  -- On a system that obeys its manual, on which each call of `recv` ends the loop or hands over
  -- bytes, no more than were asked for, and on which what it hands over before the loop ends is
  -- always shorter than the buffer; if the storage of each new object holds a zero where its receive
  -- buffer is, and with more fuel than the buffer has bytes: every run of the program, of any number
  -- of rounds, returns or ends with a message, whatever connections come and whatever events are
  -- reported. No fault occurs. Where it returns, every watched descriptor leads to a live connection
  -- with its callbacks, the lengths of every connection lie in its buffers, and every receive buffer
  -- holds a text that ends.
  pub main-Succeeds :
      (w : W) (junk : ℕ → Connection) (raw : Server) (n : ℕ)
      → Brief K recv_buffer_length
      → ((p : ℕ) → Readable (junk p).rbuffer)
      → Succeeds (λ _ m. Inv L m × Sound strict m) (main K raw fuel n (boot w junk))
  main-Succeeds w junk raw n brief storage =
      settle (main-Safely L w junk raw fuel n)
        (main-StaysFit K fuel (strict-LoopStays K fuel steady brief enough) raw n (boot w junk)
          ((λ q c e. cc), storage))
        (main-ne-out_of_fuel K steady fuel enough raw n (boot w junk)) (λ a. a)
