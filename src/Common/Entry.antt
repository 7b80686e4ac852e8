-- ===== src/Common/Entry.antt =====
-- include/entry.h and src/common/entry.c: a scheduling entry, and the operations that the client and
-- the daemon share. A pointer is modelled by what it points to, `none` for NULL; a buffer is the list
-- of its bytes. `alloc` says which allocations succeed, by their size.
pub mod Flags
pub mod Payload
pub mod Samples
pub mod Signature
mod Tests
use usched.Base.{
  ℕ, zero, suc, ◌+◌, ◌-◌, Bool, not, List, [], ◌∷◌, ◌++◌, Option, none, some, ltb, ◌==◌,
  if◌then◌else◌, take, Status, ok, err, Errno,
}
use usched.Common.Config.{u32}
use usched.Common.Flag
use usched.Common.Bitops.{bit_set, bit_clear, bit_test}
use usched.Common.Str.{strlen, strisascii}

pub record Crypto : Type 0 where
  pub context : List ℕ
  pub agreed_key : List ℕ
  pub nonce : ℕ

pub record Entry : Type 0 where
  pub id : ℕ
  pub flags : ℕ
  pub uid : ℕ
  pub gid : ℕ
  pub trigger : ℕ
  pub step : ℕ
  pub expire : ℕ
  pub pid : ℕ
  pub status : ℕ
  pub exec_time : ℕ
  pub latency : ℕ
  pub outdata_len : ℕ
  pub outdata : List ℕ
  pub psize : ℕ
  pub username : List ℕ
  pub session : List ℕ
  pub payload : Option (List ℕ)
  pub subj_size : ℕ
  pub subj : Option (List ℕ)
  pub psched_id : ℕ
  pub crypto : Crypto
  pub create_time : ℕ
  pub signature : List ℕ

-- `memset` keeps the sizes of the buffers inside the structure.
zeroed : List ℕ → List ℕ
zeroed [] = []
zeroed (b ∷ l) = 0 ∷ zeroed l

unfoldable pub entry_cleanup_session : Entry → Entry
unfolding zeroed
entry_cleanup_session entry = record entry { session = zeroed entry.session }

unfoldable pub entry_cleanup_crypto : Entry → Entry
unfolding zeroed
entry_cleanup_crypto entry = record entry {
  crypto = record {
    context = zeroed entry.crypto.context;
    agreed_key = zeroed entry.crypto.agreed_key;
    nonce = 0;
  };
}

-- The parameter is a `uint32_t`, the field has 64 bits.
unfoldable pub entry_set_id : Entry → ℕ → Entry
entry_set_id entry id = record entry { id = u32 id }

unfoldable pub entry_set_flags : Entry → ℕ → Entry
entry_set_flags entry flags = record entry { flags = u32 flags }

unfoldable pub entry_has_flag : Entry → ℕ → ℕ
entry_has_flag entry flag = bit_test entry.flags flag

unfoldable pub entry_set_flag : Entry → ℕ → Entry
entry_set_flag entry flag = record entry { flags = bit_set entry.flags flag }

unfoldable pub entry_unset_flag : Entry → ℕ → Entry
entry_unset_flag entry flag = record entry { flags = bit_clear entry.flags flag }

-- The rounds of the loop `for (n = …; n < …; n ++) entry_unset_flag(entry, n)`.
unfoldable pub unset_flags_from : ℕ → ℕ → Entry → Entry
unset_flags_from zero n entry = entry
unset_flags_from (suc rounds) n entry = unset_flags_from rounds (suc n) (entry_unset_flag entry n)

-- `sizeof(entry->flags)`, in bytes
abbrev pub sizeof_flags : ℕ
sizeof_flags = 4

unfoldable pub entry_unset_flags_local : Entry → Entry
unfolding unset_flags_from
entry_unset_flags_local entry = unset_flags_from ((sizeof_flags - 1) - Flag.init) Flag.init entry

unfoldable pub entry_set_uid : Entry → ℕ → Entry
entry_set_uid entry uid = record entry { uid = u32 uid }

unfoldable pub entry_set_gid : Entry → ℕ → Entry
entry_set_gid entry gid = record entry { gid = u32 gid }

unfoldable pub entry_set_trigger : Entry → ℕ → Entry
entry_set_trigger entry trigger = record entry { trigger = u32 trigger }

unfoldable pub entry_set_step : Entry → ℕ → Entry
entry_set_step entry step = record entry { step = u32 step }

unfoldable pub entry_set_expire : Entry → ℕ → Entry
entry_set_expire entry expire = record entry { expire = u32 expire }

unfoldable pub entry_set_psize : Entry → ℕ → Entry
entry_set_psize entry size = record entry { psize = u32 size }

unfoldable pub entry_set_subj_size : Entry → ℕ → Entry
entry_set_subj_size entry size = record entry { subj_size = u32 size }

unfoldable pub entry_unset_payload : Entry → Entry
entry_unset_payload entry = record entry { payload = none; psize = 0 }

unfoldable pub entry_unset_subj : Entry → Entry
entry_unset_subj entry = record entry { subj = none }

-- `strcmp`-like: 2 for greater, 1 for smaller (-1 in the source), 0 for equal.
pub data Compared : Type 0 where
  above below same : Compared

unfoldable pub entry_compare : Entry → Entry → Compared
entry_compare pe1 pe2 =
    if ltb pe2.id pe1.id then above else if ltb pe1.id pe2.id then below else same

-- What the functions that can fail return: the entry as they leave it, and the result.
module _ (alloc : ℕ → Bool) where
  unfoldable pub entry_set_payload : Entry → List ℕ → ℕ → Entry × Status
  unfolding entry_set_psize
  entry_set_payload entry payload len =
      if alloc (len + 1)
      then (
        entry_set_psize (record entry { payload = some (take len payload ++ 0 ∷ []) }) len,
        ok tt,
      )
      else (record entry { payload = none }, err Errno.enomem)

  -- The part of `entry_set_subj` behind the test on `len`.
  set_subj_sized : Entry → List ℕ → ℕ → Entry × Status
  unfolding entry_set_subj_size
  set_subj_sized entry subj len =
      if not (strisascii subj len)
      then (entry, err Errno.einval)
      else if alloc (len + 1)
      then (entry_set_subj_size (record entry { subj = some (take len subj ++ 0 ∷ []) }) len, ok tt)
      else (record entry { subj = none }, err Errno.enomem)

  unfoldable pub entry_set_subj : Entry → List ℕ → ℕ → Entry × Status
  unfolding set_subj_sized
  entry_set_subj entry subj len =
      if len == 0
      then set_subj_sized entry subj (strlen subj + 1)
      else set_subj_sized entry subj len

  copy_subj : Entry → Entry → Entry × Status
  unfolding entry_set_subj
  copy_subj dest src = elim src.subj [
    | none ↦ (dest, ok tt)
    | some subj ↦
        if src.subj_size == 0 then (dest, ok tt) else entry_set_subj dest subj src.subj_size
  ]

  copy_payload : Entry → Entry → Entry × Status
  unfolding entry_set_payload
  copy_payload dest src = elim src.payload [
    | none ↦ (dest, ok tt)
    | some payload ↦
        if src.psize == 0 then (dest, ok tt) else entry_set_payload dest payload src.psize
  ]

  -- `memcpy(dest, src, …)` first: `dest` begins as `src`.
  unfoldable pub entry_copy : Entry → Entry × Status
  unfolding copy_subj copy_payload
  entry_copy src =
      let (with_subj, r) = copy_subj src src in
      elim r [ err e ↦ (with_subj, err e) | ok _ ↦ copy_payload with_subj src ]
