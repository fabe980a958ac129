-- ===== src/ViewService.antt =====
-- src/viewservice/server.go and src/viewservice/common.go: the view server's state and its handlers.
-- A handler that holds the mutex is one function from state to state. A name is a `String`, and
-- `len(x) == 0` is the test `x == ""`.
pub mod Steps
pub mod Clerk
pub mod Pending
pub mod Succession
pub mod Failover
mod Tests
use distributed_systems_engi.Base.{
  ℕ, ◌+◌, ◌-◌, ◌%◌, ◌^◌, String, Bool, true, false, not, ◌&&◌, ◌||◌, [], ltb, leb, ◌==◌, nat_eq,
  string_eq, Map, or_zero, lookup, insert, delete, if◌then◌else◌,
}

pub record View : Type 0 where
  pub viewnum : ℕ  -- uint
  pub primary : String
  pub backup : String

abbrev pub no_view : View
no_view = record { viewnum = 0; primary = ""; backup = "" }

abbrev pub dead_pings : ℕ
dead_pings = 5

pub record PingArgs : Type 0 where
  pub me : String
  pub viewnum : ℕ

-- A value of `time_record` is the bit pattern of an int32.
pub record ViewServer : Type 0 where
  pub view : View
  pub witness : String
  pub time_record : Map String ℕ
  pub acked : Bool
  pub new_view : View

-- The state that `StartServer` makes.
abbrev pub start_server : ViewServer
start_server = record {
  view = no_view;
  witness = "";
  time_record = [];
  acked = true;
  new_view = no_view;
}

-- `x ++` on a uint of 64 bits
abbrev pub incr : ℕ → ℕ
incr n = (n + 1) % 2 ^ 64

-- `x --` and `x <= 0` on the bit pattern of an int32
abbrev pub decr32 : ℕ → ℕ
decr32 t = (t + (2 ^ 32 - 1)) % 2 ^ 32

abbrev pub is_out : ℕ → Bool
is_out t = t == 0 || leb (2 ^ 31) t

-- `JudgePing` for `Viewnum == 0` when the view is acked
judge_acked : String → ViewServer → ViewServer
judge_acked me vs =
    if vs.view.primary == me
    then record vs {
      view = record { viewnum = incr vs.view.viewnum; primary = vs.view.backup; backup = "" };
      acked = false;
    }
    else if vs.view.backup == me
    then record vs {
      view = record {
        viewnum = incr vs.view.viewnum;
        primary = vs.view.primary;
        backup = vs.witness;
      };
      witness = "";
      acked = false;
    }
    else if vs.view.primary == ""
    then record vs {
      view = record { viewnum = incr vs.view.viewnum; primary = me; backup = vs.view.backup };
      acked = false;
    }
    else if vs.view.backup == ""
    then (if not (vs.view.primary == me)
        then record vs {
          view = record { viewnum = incr vs.view.viewnum; primary = vs.view.primary; backup = me };
          acked = false;
        }
        else vs)
    else if vs.witness == ""
    then (if not (vs.view.primary == me) && not (vs.view.backup == me)
        then record vs { witness = me }
        else vs)
    else vs

-- `JudgePing` for `Viewnum == 0` when the view is not acked
judge_unacked : String → ViewServer → ViewServer
judge_unacked me vs =
    if vs.view.backup == "" && vs.new_view.backup == ""
    then record vs {
      new_view = record { viewnum = incr vs.view.viewnum; primary = vs.view.primary; backup = me };
      witness = "";
    }
    else if vs.witness == ""
    then record vs { witness = me }
    else vs

-- `JudgePing` for the primary's ping with the number of the view
judge_ack : ViewServer → ViewServer
judge_ack vs =
    if ltb vs.view.viewnum vs.new_view.viewnum
    then record vs { acked = true; view = vs.new_view; new_view = no_view }
    else record vs { acked = true }

unfoldable pub judge_ping : PingArgs → ViewServer → ViewServer
unfolding judge_acked judge_unacked judge_ack
judge_ping args vs =
    if args.viewnum == 0
    then (if vs.acked then judge_acked args.me vs else judge_unacked args.me vs)
    else if args.viewnum == vs.view.viewnum
    then (if args.me == vs.view.primary then judge_ack vs else vs)
    else vs

-- The state after `Ping`, whose reply is the view of that state.
unfoldable pub ping : PingArgs → ViewServer → ViewServer
ping args vs =
    judge_ping args (record vs { time_record = insert args.me dead_pings vs.time_record })

-- `Get` replies with the view and changes nothing.
unfoldable pub get : ViewServer → View
get vs = vs.view

-- The flags of `tick`: 2, 1 and 0.
pub data Flag : Type 0 where
  inited held timeout : Flag

abbrev pub is_held : Flag → Bool
is_held held = true
is_held _ = false

abbrev pub is_timeout : Flag → Bool
is_timeout timeout = true
is_timeout _ = false

abbrev pub time_of : String → Map String ℕ → ℕ
time_of who times = or_zero 0 (lookup who times)

-- One block of `tick`: count down the time of a server, and flag it.
unfoldable pub count_down : String → Map String ℕ → Map String ℕ
count_down who times = if who == "" then times else insert who (decr32 (time_of who times)) times

unfoldable pub flag_of : String → Map String ℕ → Flag
flag_of who times =
    if who == "" then inited else if is_out (time_of who times) then timeout else held

-- The first change of `tick`: a primary that timed out gives way to a live backup.
promote_backup : Flag → Flag → Flag → ViewServer → ViewServer
promote_backup p b w vs =
    if is_timeout p && is_held b
    then (if is_held w
        then record vs {
          time_record = delete vs.view.primary vs.time_record;
          view = record {
            viewnum = incr vs.view.viewnum;
            primary = vs.view.backup;
            backup = vs.witness;
          };
          witness = "";
        }
        else record vs {
          time_record = delete vs.view.primary vs.time_record;
          view = record { viewnum = incr vs.view.viewnum; primary = vs.view.backup; backup = "" };
        })
    else vs

-- The second change: a backup that timed out gives way to a live witness. The flag of the backup
-- excludes the first change, so the view's number grows here, as at the end of the source.
promote_witness : Flag → Flag → ViewServer → ViewServer
promote_witness b w vs =
    if is_timeout b && is_held w
    then record vs {
      time_record = delete vs.view.backup vs.time_record;
      view = record {
        viewnum = incr vs.view.viewnum;
        primary = vs.view.primary;
        backup = vs.witness;
      };
      witness = "";
    }
    else vs

-- The part of `tick` below the flags, which the source runs only when acked.
unfoldable pub change_view : Flag → Flag → Flag → ViewServer → ViewServer
unfolding promote_backup promote_witness
change_view p b w vs = if vs.acked then promote_witness b w (promote_backup p b w vs) else vs

unfoldable pub tick : ViewServer → ViewServer
tick vs =
    let t1 = count_down vs.view.primary vs.time_record in
    let t2 = count_down vs.view.backup t1 in
    let t3 = count_down vs.witness t2 in
    change_view (flag_of vs.view.primary t1) (flag_of vs.view.backup t2) (flag_of vs.witness t3)
      (record vs { time_record = t3 })
