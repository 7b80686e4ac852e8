-- ===== src/Usd/Process/Get.antt =====
-- src/usd/process.c, `_process_recv_update_op_get`: the entries that a request names, as the client gets
-- them.
pub mod Owned
mod Tests
use usched.Base.{
  ℕ, ◌+◌, Bool, not, ◌||◌, List, [], ◌∷◌, ◌++◌, Option, none, some, ◌==◌, leb, if◌then◌else◌,
  length, take, drop, zeros, Outcome, ok, err, Errno,
}
use usched.Common.Config.{username_max, session_max, output_max, u32}
use usched.Common.Str.{strlen}
use usched.Common.Entry.{Entry, entry_unset_payload}
use usched.Common.Entry.Payload.{Cipher}
use usched.Usd.Libs.{Cll, Psched}
use usched.Usd.Runtime.{Rund}
use usched.Usd.Schedule.{schedule_entry_get_copy}
use usched.Usd.Process.{be_bytes, requested, sealed}

-- `offsetof(struct usched_entry, psize)`
abbrev pub sizeof_head : ℕ
sizeof_head = 60 + output_max

-- The bytes of a copy in the buffer, in network byte order.
pub entry_bytes : Entry → List ℕ
entry_bytes e =
    be_bytes 8 e.id
    ++ (be_bytes 4 e.flags
        ++ (be_bytes 4 e.uid
            ++ (be_bytes 4 e.gid
                ++ (be_bytes 4 e.trigger
                    ++ (be_bytes 4 e.step
                        ++ (be_bytes 4 e.expire
                            ++ (be_bytes 4 e.pid
                                ++ (be_bytes 4 e.status
                                    ++ (be_bytes 8 e.exec_time
                                        ++ (be_bytes 8 e.latency
                                            ++ (be_bytes 4 e.outdata_len
                                                ++ (e.outdata
                                                    ++ (e.username
                                                        ++ (be_bytes 4 e.subj_size ++ elim e.subj [
                                                          | none ↦ []
                                                          | some subj ↦ take (e.subj_size + 1) subj
                                                        ]))))))))))))))

-- What the client shall not see.
pub cleared : Entry → Entry
cleared copy = record (entry_unset_payload (record copy { session = zeros session_max })) {
  psched_id = 0;
}

module _ {P S : Type 0} (cll : Cll P) (psched : Psched S) (alloc : ℕ → Bool) (fresh : ℕ → List ℕ)
    (cipher : Cipher) (garbage : ℕ → ℕ) (sizeof_entry : ℕ) where
  -- The loop over the ids: the copies so far, in order, and the buffer that holds them.
  pub copy_each :
      (uid : ℕ)
      → Rund P S
      → (ids : List ℕ) → (copies : List Entry) → (buf : List ℕ) → Outcome (List Entry × List ℕ)
  copy_each uid r [] copies buf = ok (copies, buf)
  copy_each uid r (id ∷ ids) copies buf =
      elim (schedule_entry_get_copy cll alloc sizeof_entry r id) [
        | err _ ↦ copy_each uid r ids copies buf
        | ok copy ↦
            let sent = cleared copy in
            let skipped = copy_each uid r ids copies buf in
            let added = copy_each uid r ids (copies ++ sent ∷ []) (buf ++ entry_bytes sent) in
            if not (copy.uid == uid)
            then skipped
            else if leb output_max copy.outdata_len || not (copy.outdata_len == strlen copy.outdata)
            then skipped
            else if alloc (length buf + sizeof_head + username_max + 4 + copy.subj_size + 1)
            then added
            else err Errno.enomem
      ]

  pub process_recv_update_op_get : Rund P S → Entry → Outcome (Entry × List ℕ)
  process_recv_update_op_get r entry =
      elim (requested cll psched alloc fresh cipher garbage r entry) [
        | err e ↦ err e
        | ok ids ↦
            if not (alloc 4)
            then err Errno.enomem
            else elim (copy_each entry.uid r ids [] (zeros 4)) [
              | err e ↦ err e
              | ok (copies, buf) ↦ sealed cll psched alloc fresh cipher garbage (record entry {
                payload = some (be_bytes 4 (length copies) ++ drop 4 buf);
                psize = u32 (length buf);
              })
            ]
      ]
