-- ===== src/Usd/Serialize.antt =====
-- src/usd/entry.c, `entry_daemon_serialize` and `entry_daemon_unserialize`: an entry in the file that
-- the daemon reloads. The file is the list of its bytes.
pub mod RoundTrip
pub mod Overrun
mod Tests
use usched.Base.{
  ℕ, zero, suc, ◌+◌, ◌-◌, Bool, true, false, not, List, [], ◌∷◌, ◌++◌, Option, none, some, leb, ltb,
  if◌then◌else◌, truthy, length, take, drop, zeros, Status, ok, err, Errno,
}
use usched.Common.Config.{username_max, session_max, output_max, u32}
use usched.Common.Flag
use usched.Common.Entry.{Entry, entry_has_flag, entry_set_flag}
use usched.Common.Entry.Signature.{le_bytes, of_le_bytes, subj_bytes, entry_check_signature}

-- The buffer that is written first: the fields as they lie in memory.
pub fixed_part : Entry → List ℕ
fixed_part e =
    le_bytes 8 e.id
    ++ (le_bytes 4 e.flags
        ++ (le_bytes 4 e.uid
            ++ (le_bytes 4 e.gid
                ++ (le_bytes 4 e.trigger
                    ++ (le_bytes 4 e.step
                        ++ (le_bytes 4 e.expire
                            ++ (le_bytes 4 e.pid
                                ++ (le_bytes 4 e.status
                                    ++ (le_bytes 8 e.exec_time
                                        ++ (le_bytes 8 e.latency
                                            ++ (le_bytes 4 e.outdata_len
                                                ++ (e.outdata
                                                    ++ (e.username
                                                        ++ (le_bytes 4 e.subj_size
                                                            ++ (le_bytes 4 e.create_time
                                                            ++ e.signature)))))))))))))))

-- `write_fixed` and `write_subj` say whether the two calls of `write` take all they are given; what a
-- failed call leaves in the file is not modelled. The result is the entry, the bytes written and the
-- status. A signature that fails is logged only.
pub entry_daemon_serialize : (write_fixed write_subj : Status) → Entry → Entry × List ℕ × Status
entry_daemon_serialize write_fixed write_subj entry =
    if truthy (entry_has_flag entry Flag.removed) then (entry, [], ok tt) else elim write_fixed [
      | err x ↦ (entry, [], err x)
      | ok _ ↦ elim write_subj [
        | err x ↦ (entry, fixed_part entry, err x)
        | ok _ ↦ (entry_set_flag entry Flag.serialized, fixed_part entry ++ subj_bytes entry, ok tt)
      ]
    ]

-- `overrun` is a write behind the end of `entry->outdata`.
pub data Loaded : Type 0 where
  loaded : Entry → (rest : List ℕ) → Loaded
  failed : Errno → Loaded
  overrun : Loaded

-- `memcpy(…, buf + offset, width)` and `offset += width`
pub bytes_at : ℕ → List ℕ → List ℕ
bytes_at width buf = take width buf

pub advance : ℕ → List ℕ → List ℕ
advance width buf = drop width buf

pub int_at : ℕ → List ℕ → ℕ
int_at width buf = of_le_bytes (bytes_at width buf)

-- The bytes that a zeroed buffer of `size` bytes holds after `bytes` were copied to its start.
pub copied : ℕ → List ℕ → List ℕ
copied size bytes = bytes ++ zeros (size - length bytes)

-- The fields before the test on the length of the output data, in the order of the buffer, in an entry of
-- zeros, and what of the buffer is left.
pub parse_head : (digest_size : ℕ) → List ℕ → Entry × List ℕ
parse_head digest_size b0 =
    let b1 = advance 8 b0 in
    let b2 = advance 4 b1 in
    let b3 = advance 4 b2 in
    let b4 = advance 4 b3 in
    let b5 = advance 4 b4 in
    let b6 = advance 4 b5 in
    let b7 = advance 4 b6 in
    let b8 = advance 4 b7 in
    let b9 = advance 4 b8 in
    let b10 = advance 8 b9 in
    (
      record {
        id = int_at 8 b0;
        flags = int_at 4 b1;
        uid = int_at 4 b2;
        gid = int_at 4 b3;
        trigger = int_at 4 b4;
        step = int_at 4 b5;
        expire = int_at 4 b6;
        pid = int_at 4 b7;
        status = int_at 4 b8;
        exec_time = int_at 8 b9;
        latency = int_at 8 b10;
        outdata_len = 0;
        outdata = zeros output_max;
        psize = 0;
        username = zeros username_max;
        session = zeros session_max;
        payload = none;
        subj_size = 0;
        subj = none;
        psched_id = 0;
        crypto = record { context = []; agreed_key = []; nonce = 0 };
        create_time = 0;
        signature = zeros digest_size;
      },
      advance 8 b10,
    )

-- All fields of the buffer. Those that it does not hold are zero.
pub parse_fixed : (digest_size : ℕ) → List ℕ → Entry
parse_fixed digest_size b0 =
    let (head, b11) = parse_head digest_size b0 in
    let b12 = advance 4 b11 in
    let b13 = advance output_max b12 in
    let b14 = advance username_max b13 in
    let b15 = advance 4 b14 in
    let b16 = advance 4 b15 in
    record head {
      outdata_len = int_at 4 b11;
      outdata = copied output_max (bytes_at (int_at 4 b11) b12);
      username = bytes_at username_max b13;
      subj_size = int_at 4 b14;
      create_time = int_at 4 b15;
      signature = bytes_at digest_size b16;
    }

-- `sizeof(buf)`
abbrev pub sizeof_fixed : ℕ → ℕ
sizeof_fixed digest_size = 4196 + digest_size

module _ (alloc : ℕ → Bool) (blake2s : List ℕ → List ℕ) (digest_size : ℕ) where
  -- From the allocation of the subject on.
  load_subj : Entry → List ℕ → Loaded
  load_subj e file =
      if not (alloc (u32 (e.subj_size + 1)))
      then failed Errno.enomem
      else if ltb (length file) e.subj_size
      then failed (Errno.other_errno 0)
      else let entry = record e { subj = some (bytes_at e.subj_size file ++ 0 ∷ []) } in
        if entry_check_signature blake2s entry
        then loaded (entry_set_flag entry Flag.serialized) (advance e.subj_size file)
        else failed Errno.einval

  pub entry_daemon_unserialize : (sizeof_entry : ℕ) → List ℕ → Loaded
  entry_daemon_unserialize sizeof_entry file =
      if not (alloc sizeof_entry)
      then failed Errno.enomem
      else if ltb (length file) (sizeof_fixed digest_size)
      then failed (Errno.other_errno 0)
      else let buf = bytes_at (sizeof_fixed digest_size) file in
        let entry = parse_fixed digest_size buf in
        if leb output_max (parse_head digest_size buf).0.outdata_len
        then failed Errno.einval
        else if leb output_max entry.outdata_len
        then overrun
        else load_subj entry (advance (sizeof_fixed digest_size) file)
