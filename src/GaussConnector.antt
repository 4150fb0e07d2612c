-- ===== src/GaussConnector.antt =====
-- src/opengauss/GaussConnector.cpp and inc/opengauss/GaussConnector.hpp: commands on a database
-- connection. The library libpq is a parameter: `C` and `R` stand for `PGconn *` and `PGresult *`,
-- and `W` for all that it keeps.
pub mod Commands
pub mod Calls
pub mod Messages
use Prim.Native.String.{String}
use online_chat_proj.Base.{
  ℕ, suc, ◌+◌, ◌<◌, Bool, true, false, Option, none, some, List, [], ◌∷◌, ◌++◌, ltb, if◌then◌else◌,
}
use online_chat_proj.Base.Lists.{length, drop}
use online_chat_proj.Base.Int.{ℤ, pos, minus_one}
use online_chat_proj.Machine.{Fault, out_of_bounds, unterminated, missing_return}
use online_chat_proj.Server.{c_string}

pub data ConnStatusType : Type 0 where
  connection_ok connection_bad connection_started connection_made : ConnStatusType
  connection_awaiting_response connection_auth_ok connection_setenv : ConnStatusType
  connection_ssl_startup connection_needed connection_check_writable : ConnStatusType
  connection_consume connection_check_target connection_check_standby : ConnStatusType

pub data ExecStatusType : Type 0 where
  pgres_empty_query pgres_command_ok pgres_tuples_ok pgres_copy_out pgres_copy_in : ExecStatusType
  pgres_bad_response pgres_nonfatal_error pgres_fatal_error pgres_copy_both : ExecStatusType
  pgres_single_tuple : ExecStatusType

pub record Libpq (W C R : Type 0) : Type 0 where
  pub connectdb : String → W → C × W
  pub status : C → W → ConnStatusType
  pub error_message : C → W → List ℕ
  pub finish : C → W → W
  pub exec : C → List ℕ → W → R × W
  pub result_status : R → W → ExecStatusType
  pub clear : R → W → W
  -- `fprintf(stderr, "Connection to database failed:%s\r\n", ...)`
  pub complain : List ℕ → W → W

abbrev pub conninfo : String
conninfo =
    "dbname=postgres port=5432 host='127.0.0.1' application_name=online-chat connect_timeout=10 sslmode=allow user='superuser' password='OGSql@123'"

-- `class GaussConnector`; `res` is unset at first.
pub record GaussConnector (C R : Type 0) : Type 0 where
  pub conn : C
  pub res : Option R

pub data Opened (W C R : Type 0) : Type 0 where
  connected : GaussConnector C R → W → Opened W C R
  gave_up : W → Opened W C R

-- A command's return value, the caller's buffer (none for a null pointer), and what is left behind.
pub record Reply (W C R : Type 0) : Type 0 where
  pub code : ℤ
  pub connector : GaussConnector C R
  pub buffer : Option (List ℕ)
  pub world : W

pub data Outcome (W C R : Type 0) : Type 0 where
  done : Reply W C R → Outcome W C R
  faulted : Fault → Outcome W C R

abbrev pub is_connected : ConnStatusType → Bool
is_connected connection_ok = true
is_connected _ = false

abbrev pub is_command_ok : ExecStatusType → Bool
is_command_ok pgres_command_ok = true
is_command_ok _ = false

-- `strcat` of `msg` behind the text `old` of the buffer, if that has one and there is room.
abbrev pub append_text : Option (List ℕ) → List ℕ → List ℕ → Option (List ℕ)
append_text none msg buf = none
append_text (some old) msg buf =
    if ltb (length old + length msg) (length buf)
    then some (old ++ (msg ++ 0 ∷ drop (length old + length msg + 1) buf))
    else none

unfoldable pub strcat : List ℕ → List ℕ → Option (List ℕ)
unfolding c_string
strcat buf msg = append_text (c_string buf) msg buf

module _ {W C R : Type 0} (L : Libpq W C R) where
  -- `GaussConnector::GaussConnector`
  unfoldable pub open_connector : W → Opened W C R
  open_connector w =
      let (conn, w') = L.connectdb conninfo w in
      if is_connected (L.status conn w')
      then connected (record { conn = conn; res = none }) w'
      else gave_up (L.complain (L.error_message conn w') w')

  -- `~GaussConnector`
  unfoldable pub close_connector : GaussConnector C R → W → W
  close_connector g w = L.finish g.conn w

  -- What the three commands do with a result that is not PGRES_COMMAND_OK.
  abbrev pub with_message : GaussConnector C R → R → W → Option (List ℕ) → Outcome W C R
  with_message g r w none = faulted out_of_bounds
  with_message g r w (some buf) =
      done (record { code = minus_one; connector = g; buffer = some buf; world = L.clear r w })

  abbrev pub reject : GaussConnector C R → R → W → Option (List ℕ) → Outcome W C R
  reject g r w none =
      done (record { code = minus_one; connector = g; buffer = none; world = L.clear r w })
  reject g r w (some buf) = with_message g r w (strcat buf (L.error_message g.conn w))

  unfoldable pub insert : List ℕ → Option (List ℕ) → GaussConnector C R → W → Outcome W C R
  insert cmd buf g w =
      let (r, w') = L.exec g.conn cmd w in
      if is_command_ok (L.result_status r w')
      then done
          (record { code = pos 0; connector = record g { res = some r }; buffer = buf; world = w' })
      else reject (record g { res = some r }) r w' buf

  unfoldable pub update : List ℕ → Option (List ℕ) → GaussConnector C R → W → Outcome W C R
  update cmd buf g w =
      let (r, w') = L.exec g.conn cmd w in
      if is_command_ok (L.result_status r w')
      then done
          (record { code = pos 0; connector = record g { res = some r }; buffer = buf; world = w' })
      else reject (record g { res = some r }) r w' buf

  unfoldable pub omit : List ℕ → Option (List ℕ) → GaussConnector C R → W → Outcome W C R
  omit cmd buf g w =
      let (r, w') = L.exec g.conn cmd w in
      if is_command_ok (L.result_status r w')
      then done
          (record { code = pos 0; connector = record g { res = some r }; buffer = buf; world = w' })
      else reject (record g { res = some r }) r w' buf

  -- The template `insert(tableName, args...)`: its body makes a text and ends without a `return`.
  unfoldable pub insert_values : List ℕ → GaussConnector C R → W → Outcome W C R
  insert_values table g w = faulted missing_return
