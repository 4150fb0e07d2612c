-- ===== src/Log.antt =====
-- src/log/util.cpp: end the process on a failed check.
use Prim.Native.String.{String}
use online_chat_proj.Base.{Bool, true, false}
use online_chat_proj.Os.{Kernel}
use online_chat_proj.Machine.{M, ok, exited}

-- `perror(msg); exit(EXIT_FAILURE);` if the condition holds.
unfoldable pub errif : {W : Type 0} → Kernel W → Bool → String → M W (Unit {0})
errif K false msg m = ok tt m
errif K true msg m = exited (K.perror msg m.world)
