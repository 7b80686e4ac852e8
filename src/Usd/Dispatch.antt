-- ===== src/Usd/Dispatch.antt =====
-- src/usd/entry.c, `entry_daemon_exec_dispatch`: what the scheduler runs when a trigger is reached. The
-- entry lives in the active pool; the result says what becomes of it there.
pub mod Outcomes
pub mod Keeps
mod Tests
use usched.Base.{
  ℕ, zero, suc, ◌+◌, ◌-◌, Bool, true, false, not, ◌||◌, List, [], ◌∷◌, Option, none, some, ◌==◌,
  ltb, leb, if◌then◌else◌, truthy, length, Outcome, Status, ok, err, Errno,
}
use usched.Common.Flag
use usched.Common.Entry.{Entry, entry_has_flag, entry_set_flag, entry_unset_flag}
use usched.Common.Entry.Signature.{entry_check_signature}
use usched.Usd.Libs.{Cll, Psched, Calendar}
use usched.Common.Config.{u32}
use usched.Usd.Vars.{Vars, vars_replace_all}
use usched.Usd.Runtime.{Rund, runtime_daemon_fatal}
use usched.Usd.Index.{subj_string}
use usched.Usd.Schedule.Update.{schedule_entry_update}

-- include/ipc.h, `struct ipc_use_hdr`, and the command that follows it.
pub record Message : Type 0 where
  pub id : ℕ
  pub uid : ℕ
  pub gid : ℕ
  pub trigger : ℕ
  pub cmd_len : ℕ
  pub cmd : List ℕ

-- `sizeof(struct ipc_use_hdr)`
abbrev pub sizeof_ipc_use_hdr : ℕ
sizeof_ipc_use_hdr = 24

-- `rund.config.exec.delta_noexec` and `rund.config.ipc.msg_size`. The size is at least that of the header of
-- a message: below it, the writes of the header leave the buffer, which is not modelled.
pub record ExecConfig : Type 0 where
  pub delta_noexec : ℕ
  pub msg_size : ℕ

-- What the function leaves: the runtime, the entry (`none` if it was deleted from the pool), and the
-- message that was handed to the executer, if one was.
pub record Dispatched (P S : Type 0) : Type 0 where
  pub rund : Rund P S
  pub entry : Option Entry
  pub sent : Option Message

-- `labs(now - trigger)`
pub distance : ℕ → ℕ → ℕ
distance now trigger = if ltb now trigger then trigger - now else now - trigger

is_fatal_errno : Errno → Bool
is_fatal_errno Errno.eacces = true
is_fatal_errno Errno.einval = true
is_fatal_errno Errno.enomem = true
is_fatal_errno Errno.efault = true
is_fatal_errno Errno.eidrm = true
is_fatal_errno _ = false

-- The entry as a signature that fails, or a message that is too long, leaves it.
marked_invalid : Entry → Entry
marked_invalid e = entry_unset_flag (entry_set_flag e Flag.invalid) Flag.serialized

-- The entry as it is when the checks begin.
pub triggered : Entry → Entry
triggered e = entry_set_flag (entry_unset_flag e Flag.relative_trigger) Flag.triggered

abbrev vars_of_entry : Entry → Vars
vars_of_entry e = record {
  id = e.id;
  username = e.username;
  uid = e.uid;
  gid = e.gid;
  trigger = e.trigger;
  step = e.step;
  expire = e.expire;
}

module _ (alloc : ℕ → Bool) where
  -- The command with its variables replaced, or as it is.
  pub command_of : Entry → List ℕ
  command_of e = elim (vars_replace_all alloc (subj_string e) (vars_of_entry e)) [
    | none ↦ subj_string e
    | some cmd ↦ cmd
  ]

  pub message_of : Entry → Message
  message_of e = record {
    id = e.id;
    uid = e.uid;
    gid = e.gid;
    trigger = e.trigger;
    cmd_len = u32 (length (command_of e));
    cmd = command_of e;
  }

-- `send` is `ipc_send_nowait` to the executer, `now` is `time(NULL)`.
module _ {P S R : Type 0} (cll : Cll P) (psched : Psched S) (cal : Calendar R) (alloc : ℕ → Bool)
    (blake2s : List ℕ → List ℕ) (config : ExecConfig) (send : Message → Status) where
  -- From the label `_process` on.
  process : Rund P S → Entry → Option Message → Dispatched P S
  process r e sent =
      let (r', e', updated) = schedule_entry_update psched cal r e in
      elim updated [
        | ok zero ↦ record {
          rund = record r' { apool = cll.del r'.apool e'.id };
          entry = none;
          sent = sent;
        }
        | ok (suc n) ↦ record { rund = r'; entry = some e'; sent = sent }
        | err _ ↦ record { rund = runtime_daemon_fatal r'; entry = some e'; sent = sent }
      ]

  -- From the delivery of the message on.
  deliver : Rund P S → Entry → Dispatched P S
  deliver r e = elim (send (message_of alloc e)) [
    | ok _ ↦ process r e (some (message_of alloc e))
    | err x ↦ process (if is_fatal_errno x then runtime_daemon_fatal r else r) e none
  ]

  -- The checks between the allocation of the message and its delivery.
  checked : Rund P S → Entry → Dispatched P S
  checked r e =
      if not (truthy (entry_has_flag e Flag.authorized))
      then record { rund = record r { apool = cll.del r.apool e.id }; entry = none; sent = none }
      else if truthy (entry_has_flag e Flag.invalid)
      then record { rund = r; entry = some e; sent = none }
      else if not (entry_check_signature blake2s e)
      then record { rund = r; entry = some (marked_invalid e); sent = none }
      else if ltb config.msg_size ((message_of alloc e).cmd_len + sizeof_ipc_use_hdr + 1)
      then record { rund = r; entry = some (marked_invalid e); sent = none }
      else deliver r e

  pub entry_daemon_exec_dispatch : (now : ℕ) → Rund P S → Entry → Dispatched P S
  entry_daemon_exec_dispatch now r entry =
      let e = triggered entry in
      if leb config.delta_noexec (u32 (distance now e.trigger))
      then process r e none
      else if not (alloc config.msg_size)
      then record { rund = runtime_daemon_fatal r; entry = some e; sent = none }
      else checked r e
