-- ===== src/Usd/Dispatch/Outcomes.antt =====
-- When a trigger is reached: which entries are run, with whose rights, and which are dropped.
use usched.Base.{
  ℕ, ◌+◌, ◌<◌, ◌≡◌, Bool, true, false, not, ◌&&◌, List, ◌==◌, ltb, leb, if◌then◌else◌, Status, ok,
  err, arith,
}
use usched.Common.Config.{u32}
use usched.Common.Flag
use usched.Common.Entry.{Entry, entry_unset_flag}
use usched.Common.Entry.Flags.{has, has-entry_set_flag, has-entry_unset_flag}
use usched.Common.Entry.Signature.{entry_check_signature}
use usched.Usd.Dispatch.{sizeof_ipc_use_hdr, ExecConfig, distance, triggered, message_of}

-- The marks that `triggered` makes do not touch the flags that decide.
pub has-triggered :
    (e : Entry) (f : ℕ)
    → f < 32
    → has (triggered e) f ≡ (
        if Flag.triggered == f then true else if Flag.relative_trigger == f then false else has e f)
unfolding triggered
has-triggered e f h = ground (
  arith,
  has-entry_set_flag (entry_unset_flag e Flag.relative_trigger) Flag.triggered f,
  has-entry_unset_flag e Flag.relative_trigger f,
)

abbrev pub is_ok : Status → Bool
is_ok (ok _) = true
is_ok (err _) = false

module _ (alloc : ℕ → Bool) (blake2s : List ℕ → List ℕ) where
  module _ (config : ExecConfig) where
    -- In time, in memory, authorized, valid, with its own signature, and short enough.
    abbrev pub runnable : (now : ℕ) → Entry → Bool
    runnable now e =
        ltb (u32 (distance now e.trigger)) config.delta_noexec
        && (alloc config.msg_size
            && (has e Flag.authorized
                && (not (has e Flag.invalid)
                    && (entry_check_signature blake2s e
                        && leb ((message_of alloc e).cmd_len + sizeof_ipc_use_hdr + 1)
                            config.msg_size))))
