-- ===== src/Usd/Serialize/RoundTrip.antt =====
-- An entry that is written to the file and loaded again.
use mathlib.Core.List.{append_assoc}
use usched.Base.{
  ℕ, zero, suc, ◌+◌, ◌^◌, ◌≤◌, ◌<◌, ◌≡◌, ◌∙◌, refl, ap, Bool, true, false, List, [], ◌∷◌, ◌++◌,
  none, some, length, take, zeros, take_all, take-append, drop-append, length-append, length-take,
  Status, ok, arith,
}
use usched.Common.Config.{username_max, session_max, output_max, u32}
use usched.Common.Flag
use usched.Common.Entry.{Entry, entry_set_flag}
use usched.Common.Entry.Flags.{has}
use usched.Common.Entry.Signature.{
  le_bytes, subj_bytes, entry_check_signature, length-le_bytes, of_le_bytes-le_bytes, check_same,
  SameSigned,
}
use usched.Usd.Serialize.{
  fixed_part, entry_daemon_serialize, loaded, bytes_at, advance, int_at, copied, parse_head,
  parse_fixed, sizeof_fixed, load_subj, entry_daemon_unserialize,
}

-- The fields have the sizes of their types, the output data is shorter than its buffer, and the subject
-- is at least as long as its length says.
pub record IsStorable (digest_size : ℕ) (e : Entry) (s : List ℕ) : Type 0 where
  pub id : e.id < 2 ^ 64
  pub flags : e.flags < 2 ^ 32
  pub uid : e.uid < 2 ^ 32
  pub gid : e.gid < 2 ^ 32
  pub trigger : e.trigger < 2 ^ 32
  pub step : e.step < 2 ^ 32
  pub expire : e.expire < 2 ^ 32
  pub pid : e.pid < 2 ^ 32
  pub status : e.status < 2 ^ 32
  pub exec_time : e.exec_time < 2 ^ 64
  pub latency : e.latency < 2 ^ 64
  pub outdata_len : e.outdata_len < output_max
  pub outdata : length e.outdata ≡ output_max
  pub username : length e.username ≡ username_max
  pub subj_size : e.subj_size < 2 ^ 32
  pub create_time : e.create_time < 2 ^ 32
  pub signature : length e.signature ≡ digest_size
  pub subj : e.subj ≡ some s
  pub subj_length : e.subj_size ≤ length s

-- What of an entry the file keeps.
abbrev pub fixed_fields : Entry → Entry
fixed_fields e = record e {
  outdata = copied output_max (take e.outdata_len e.outdata);
  psize = 0;
  session = zeros session_max;
  payload = none;
  subj = none;
  psched_id = 0;
  crypto = record { context = []; agreed_key = []; nonce = 0 };
}

abbrev pub persisted : Entry → Entry
persisted e = record (fixed_fields e) { subj = some (subj_bytes e ++ 0 ∷ []) }

abbrev pub bytes_written : Entry × List ℕ × Status → List ℕ
bytes_written (entry, file, status) = file

int_at-le_bytes : (w n : ℕ) (r : List ℕ) → n < 256 ^ w → int_at w (le_bytes w n ++ r) ≡ n
unfolding int_at bytes_at
int_at-le_bytes w n r h =
    rw (take-append w (le_bytes w n) r (length-le_bytes w n)) (of_le_bytes-le_bytes w n h)

advance-le_bytes : (w n : ℕ) (r : List ℕ) → advance w (le_bytes w n ++ r) ≡ r
unfolding advance
advance-le_bytes w n r = drop-append w (le_bytes w n) r (length-le_bytes w n)

advance-append : (w : ℕ) (b r : List ℕ) → length b ≡ w → advance w (b ++ r) ≡ r
unfolding advance
advance-append w b r h = drop-append w b r h

bytes_at-append : (w : ℕ) (b r : List ℕ) → length b ≡ w → bytes_at w (b ++ r) ≡ b
unfolding bytes_at
bytes_at-append w b r h = take-append w b r h

take-append_le : (n : ℕ) (xs ys : List ℕ) → n ≤ length xs → take n (xs ++ ys) ≡ take n xs
take-append_le zero xs ys h = refl
take-append_le (suc n) [] ys h = elim h [ ]
take-append_le (suc n) (x ∷ xs) ys h = ap (λ zs. x ∷ zs) (take-append_le n xs ys (omega arith))

length-fixed_part :
    (digest_size : ℕ) (e : Entry) (subj : List ℕ)
    → IsStorable digest_size e subj
    → length (fixed_part e) ≡ sizeof_fixed digest_size
unfolding fixed_part
length-fixed_part digest_size e subj h =
    omega (arith, length-append {0}, length-le_bytes, h.outdata, h.username, h.signature)

bytes_at_all : (w : ℕ) (b : List ℕ) → length b ≡ w → bytes_at w b ≡ b
unfolding bytes_at
bytes_at_all w b h = rw (← h) (take_all b)

bytes_at_prefix : (n : ℕ) (xs ys : List ℕ) → n ≤ length xs → bytes_at n (xs ++ ys) ≡ take n xs
unfolding bytes_at
bytes_at_prefix n xs ys h = take-append_le n xs ys h

-- The length of the output data is 0 when it is tested.
pub head_length : (digest_size : ℕ) (buf : List ℕ) → (parse_head digest_size buf).0.outdata_len ≡ 0
unfolding parse_head
head_length digest_size buf = refl

parse_fixed-fixed_part :
    (digest_size : ℕ) (e : Entry) (subj : List ℕ)
    → IsStorable digest_size e subj
    → parse_fixed digest_size (fixed_part e) ≡ fixed_fields e
unfolding parse_fixed parse_head fixed_part
parse_fixed-fixed_part digest_size e subj h =
    let s15 = le_bytes 4 e.create_time ++ e.signature in
    let s14 = le_bytes 4 e.subj_size ++ s15 in
    let s13 = e.username ++ s14 in
    let s12 = e.outdata ++ s13 in
    let s11 = le_bytes 4 e.outdata_len ++ s12 in
    let s10 = le_bytes 8 e.latency ++ s11 in
    let s9 = le_bytes 8 e.exec_time ++ s10 in
    let s8 = le_bytes 4 e.status ++ s9 in
    let s7 = le_bytes 4 e.pid ++ s8 in
    let s6 = le_bytes 4 e.expire ++ s7 in
    let s5 = le_bytes 4 e.step ++ s6 in
    let s4 = le_bytes 4 e.trigger ++ s5 in
    let s3 = le_bytes 4 e.gid ++ s4 in
    let s2 = le_bytes 4 e.uid ++ s3 in
    let s1 = le_bytes 4 e.flags ++ s2 in
    cc (
      advance-le_bytes 8 e.id s1,
      int_at-le_bytes 8 e.id s1 h.id,
      advance-le_bytes 4 e.flags s2,
      int_at-le_bytes 4 e.flags s2 h.flags,
      advance-le_bytes 4 e.uid s3,
      int_at-le_bytes 4 e.uid s3 h.uid,
      advance-le_bytes 4 e.gid s4,
      int_at-le_bytes 4 e.gid s4 h.gid,
      advance-le_bytes 4 e.trigger s5,
      int_at-le_bytes 4 e.trigger s5 h.trigger,
      advance-le_bytes 4 e.step s6,
      int_at-le_bytes 4 e.step s6 h.step,
      advance-le_bytes 4 e.expire s7,
      int_at-le_bytes 4 e.expire s7 h.expire,
      advance-le_bytes 4 e.pid s8,
      int_at-le_bytes 4 e.pid s8 h.pid,
      advance-le_bytes 4 e.status s9,
      int_at-le_bytes 4 e.status s9 h.status,
      advance-le_bytes 8 e.exec_time s10,
      int_at-le_bytes 8 e.exec_time s10 h.exec_time,
      advance-le_bytes 8 e.latency s11,
      int_at-le_bytes 8 e.latency s11 h.latency,
      advance-le_bytes 4 e.outdata_len s12,
      int_at-le_bytes 4 e.outdata_len s12 (omega (arith, h.outdata_len)),
      advance-append output_max e.outdata s13 h.outdata,
      advance-append username_max e.username s14 h.username,
      bytes_at-append username_max e.username s14 h.username,
      advance-le_bytes 4 e.subj_size s15,
      int_at-le_bytes 4 e.subj_size s15 h.subj_size,
      advance-le_bytes 4 e.create_time e.signature,
      int_at-le_bytes 4 e.create_time e.signature h.create_time,
      bytes_at_all digest_size e.signature h.signature,
      bytes_at_prefix e.outdata_len e.outdata s13 (omega (arith, h.outdata, h.outdata_len)),
    )

length-subj_bytes :
    (digest_size : ℕ) (e : Entry) (subj : List ℕ)
    → IsStorable digest_size e subj
    → length (subj_bytes e) ≡ e.subj_size
unfolding subj_bytes
length-subj_bytes digest_size e subj h =
    ground (arith, h.subj, length-take e.subj_size subj h.subj_length)

module _ (alloc : ℕ → Bool) (blake2s : List ℕ → List ℕ) (digest_size : ℕ) (e : Entry) (s : List ℕ)
    (h : IsStorable digest_size e s) where
  persisted_signed : entry_check_signature blake2s (persisted e) ≡ entry_check_signature blake2s e
  persisted_signed = check_same blake2s (persisted e) e same refl
    where
      subj_same : subj_bytes (persisted e) ≡ subj_bytes e
      subj_same =
          unfold subj_bytes in
          take-append e.subj_size (subj_bytes e) (0 ∷ []) (length-subj_bytes digest_size e s h)

      same : SameSigned (persisted e) e
      same = record { id = refl; uid = refl; gid = refl; subj = subj_same; create_time = refl }

  load_subj_lem :
      (rest : List ℕ)
      → alloc (u32 (e.subj_size + 1)) ≡ true
      → entry_check_signature blake2s e ≡ true
      → load_subj alloc blake2s digest_size (fixed_fields e) (subj_bytes e ++ rest)
        ≡ loaded (entry_set_flag (persisted e) Flag.serialized) rest
  unfolding load_subj
  load_subj_lem rest room signed =
      let size = length-subj_bytes digest_size e s h in
      ground (
        arith,
        length-append {0} (subj_bytes e) rest,
        size,
        bytes_at-append e.subj_size (subj_bytes e) rest size,
        advance-append e.subj_size (subj_bytes e) rest size,
        persisted_signed,
      )

  unserialize_bytes :
      (sizeof_entry : ℕ) (rest : List ℕ)
      → entry_check_signature blake2s e ≡ true
      → alloc sizeof_entry ≡ true
      → alloc (u32 (e.subj_size + 1)) ≡ true
      → entry_daemon_unserialize alloc blake2s digest_size sizeof_entry
          (fixed_part e ++ (subj_bytes e ++ rest))
        ≡ loaded (entry_set_flag (persisted e) Flag.serialized) rest
  unfolding entry_daemon_unserialize
  unserialize_bytes sizeof_entry rest signed room1 room2 =
      let size = length-fixed_part digest_size e s h in
      let after = subj_bytes e ++ rest in
      ground (
        arith,
        length-append {0} (fixed_part e) after,
        size,
        bytes_at-append (sizeof_fixed digest_size) (fixed_part e) after size,
        advance-append (sizeof_fixed digest_size) (fixed_part e) after size,
        parse_fixed-fixed_part digest_size e s h,
        head_length digest_size (fixed_part e),
        load_subj_lem rest room2 signed,
        h.outdata_len,
      )

  written :
      has e Flag.removed ≡ false
      → bytes_written (entry_daemon_serialize (ok tt) (ok tt) e) ≡ fixed_part e ++ subj_bytes e
  unfolding entry_daemon_serialize
  written kept = ground arith

  -- An entry that is not marked as removed, whose signature is right and whose fields have the sizes of
  -- their types, is loaded again, if memory can be had, as it was written, whatever follows it in the file: all that the file
  -- keeps is the same, the flag that it is stored is set, and the reader stands behind the entry.
  pub unserialize-serialize :
      (sizeof_entry : ℕ) (rest : List ℕ)
      → has e Flag.removed ≡ false
      → entry_check_signature blake2s e ≡ true
      → alloc sizeof_entry ≡ true
      → alloc (u32 (e.subj_size + 1)) ≡ true
      → entry_daemon_unserialize alloc blake2s digest_size sizeof_entry
          (bytes_written (entry_daemon_serialize (ok tt) (ok tt) e) ++ rest)
        ≡ loaded (entry_set_flag (persisted e) Flag.serialized) rest
  unserialize-serialize sizeof_entry rest kept signed room1 room2 =
      ap (λ b. entry_daemon_unserialize alloc blake2s digest_size sizeof_entry (b ++ rest))
        (written kept)
      ∙ (ap (entry_daemon_unserialize alloc blake2s digest_size sizeof_entry)
            (append_assoc (fixed_part e) (subj_bytes e) rest)
          ∙ unserialize_bytes sizeof_entry rest signed room1 room2)
