-- ===== src/Usd/Process/Stages/Received.antt =====
-- The first stage of a received entry: what a header has to be for the daemon to answer, and the entry
-- that it becomes.
use native.Mathlib.Decide.{dec_lt}
use usched.Base.{
  ℕ, ◌+◌, ◌^◌, ◌≤◌, ◌<◌, ◌≡◌, ◌≢◌, refl, ◌∙◌, Bool, true, false, ◌&&◌, ◌||◌, truthy, List, none,
  ◌⊎◌, inl, inr, ok, if◌then◌else◌, ◌==◌, ltb, zeros, arith, Outcome-cases,
}
use usched.Common.Config.{u32, session_max, output_max}
use usched.Common.Bitops.{bit_test}
use usched.Usd.Process.{of_be_bytes}
use usched.Common.Flag
use usched.Common.Entry.{
  Entry, Crypto, entry_set_id, entry_set_flags, entry_has_flag, entry_set_flag,
  entry_unset_flags_local, unset_flags_from,
}
use usched.Common.Entry.Flags.{has, has-entry_set_flag}
use usched.Usd.Authorize.{Peer, conn_is_local, conn_is_remote, entry_daemon_remote_session_create}
use usched.Usd.Process.Stages.{
  field_at, header_of, has_operation, start_session, process_daemon_recv_create,
}

-- The bit `f` of the flags in a header, as the client sent it, and the size of the payload there.
abbrev pub sent_flag : List ℕ → ℕ → Bool
sent_flag bytes f = truthy (bit_test (u32 (of_be_bytes 0 (field_at 8 4 bytes))) f)

abbrev pub sent_psize : List ℕ → ℕ
sent_psize bytes = u32 (of_be_bytes 0 (field_at (60 + output_max) 4 bytes))

-- The new entry of a connection: its id is the file descriptor, it has no payload yet, and its flags are
-- the bits that the client sent, with PROGRESS. A request for a new entry fits a message of the size
-- `msg_size` with 21 bytes more, or is so long that the sum does not fit 32 bits.
pub record IsOpened (bytes : List ℕ) (msg_size fd : ℕ) (e : Entry) : Type 0 where
  pub id : e.id ≡ u32 fd
  pub flags : (f : ℕ) → has e f ≡ (if Flag.progress == f then true else sent_flag bytes f)
  pub operation :
      (sent_flag bytes Flag.new || (sent_flag bytes Flag.del || sent_flag bytes Flag.get)) ≡ true
  pub payload : e.payload ≡ none
  pub psize : (e.psize ≡ sent_psize bytes) × (e.psize ≢ 0)
  pub fits : sent_flag bytes Flag.new ≡ true → (e.psize + 21 ≤ msg_size) ⊎ (2 ^ 32 ≤ e.psize + 21)

start_session_keeps :
    (e : Entry) (fd : Peer) (e' : Entry)
    → start_session e fd ≡ ok e'
    → (e'.flags ≡ e.flags) × (e'.id ≡ e.id) × (e'.psize ≡ e.psize) × (e'.payload ≡ e.payload)
unfolding start_session entry_daemon_remote_session_create
start_session_keeps e fd e' h = ground arith

same_flags : (a b : Entry) (f : ℕ) → a.flags ≡ b.flags → has a f ≡ has b f
unfolding entry_has_flag
same_flags a b f h = rw h refl

fits_lem :
    (new : Bool) (m s : ℕ)
    → (new && ltb m (u32 (s + 21))) ≡ false
    → new ≡ true
    → (s + 21 ≤ m) ⊎ (2 ^ 32 ≤ s + 21)
fits_lem false m s h asks = cc
fits_lem true m s h asks = elim (dec_lt (s + 21) (2 ^ 32)) [
  | no big ↦ inr (omega arith)
  | yes small ↦
      let whole : u32 (s + 21) ≡ s + 21 = omega arith in
      let low : ltb m (s + 21) ≡ false = rw whole at h in inl (ground (arith, low))
]

opened :
    (bytes : List ℕ) (sent : Entry) (peer : Peer) (msg_size fd : ℕ) (e : Entry)
    → ((f : ℕ) → has sent f ≡ sent_flag bytes f)
    → sent.psize ≡ sent_psize bytes
    → sent.id ≡ u32 fd
    → sent.payload ≡ none
    → has_operation sent ≡ true
    → sent.psize ≢ 0
    → (has sent Flag.new && ltb msg_size (u32 (sent.psize + 21))) ≡ false
    → start_session (entry_set_flag sent Flag.progress) peer ≡ ok e
    → IsOpened bytes msg_size fd e
unfolding entry_set_flag has_operation
opened bytes sent peer msg_size fd e same announced id payload operation nonzero fits started =
    let (flags', id', psize', payload') =
      start_session_keeps (entry_set_flag sent Flag.progress) peer e started in
    record {
      id = ground (arith, id', id);
      flags = λ f.
          same_flags e (entry_set_flag sent Flag.progress) f flags'
          ∙ has-entry_set_flag sent Flag.progress f
          ∙ ground (arith, same f);
      operation = ground (arith, same Flag.new, same Flag.del, same Flag.get);
      payload = ground (arith, payload', payload);
      psize = ground (arith, psize', announced, nonzero);
      fits = λ asks.
          rw psize' (fits_lem (has sent Flag.new) msg_size sent.psize fits (same Flag.new ∙ asks));
    }

module _ (host : List ℕ → ℕ) (no_crypto : Crypto) where
  header_lem :
      (fd : ℕ) (bytes : List ℕ)
      → ((header_of host no_crypto fd bytes).id ≡ u32 fd)
        × ((header_of host no_crypto fd bytes).payload ≡ none)
        × ((header_of host no_crypto fd bytes).psize < 2 ^ 32)
  unfolding header_of entry_set_flags entry_set_id entry_unset_flags_local unset_flags_from
  header_lem fd bytes = (refl, refl, omega arith)

  -- No flag is lost: the loop that is to clear the flags of the daemon does nothing.
  has-header_of :
      (fd : ℕ) (bytes : List ℕ) (f : ℕ)
      → has (header_of host no_crypto fd bytes) f ≡ sent_flag bytes f
  unfolding header_of entry_has_flag entry_set_flags entry_set_id entry_unset_flags_local
      unset_flags_from
  has-header_of fd bytes f = refl

  header_of-psize :
      (fd : ℕ) (bytes : List ℕ) → (header_of host no_crypto fd bytes).psize ≡ sent_psize bytes
  unfolding header_of entry_set_flags entry_set_id entry_unset_flags_local unset_flags_from
  header_of-psize fd bytes = refl

  -- A header is answered only if it asks for an operation and announces a payload, which for a new entry
  -- fits a message or is so long that the sum that is tested does not fit 32 bits; and the entry in
  -- progress has, beside PROGRESS, the flags that stand in the four bytes at the offset 8 of the header,
  -- those of the daemon included.
  pub recv_create-IsOpened :
      (alloc : ℕ → Bool) (sizeof_entry msg_size fd : ℕ) (peer : Peer) (bytes : List ℕ) (e : Entry)
      → process_daemon_recv_create host no_crypto alloc sizeof_entry msg_size fd peer bytes ≡ ok e
      → IsOpened bytes msg_size fd e
  unfolding process_daemon_recv_create
  recv_create-IsOpened alloc sizeof_entry msg_size fd peer bytes e h =
      let sent = header_of host no_crypto fd bytes in
      let (id, payload, size) = header_lem fd bytes in
      elim (Outcome-cases (start_session (entry_set_flag sent Flag.progress) peer)) [
        | inr (x, failed) ↦ absurd (ground (arith, failed))
        | inl (e', started) ↦
            opened bytes sent peer msg_size fd e (has-header_of fd bytes) (header_of-psize fd bytes)
              id payload (ground (arith, started)) (ground (arith, started))
              (ground (arith, started)) (ground (arith, started))
      ]

  module _ (sizeof_entry msg_size fd : ℕ) (peer : Peer) where
    -- With memory, a local connection and a limit of at least 20 bytes: a request for a new entry is
    -- accepted whose announced size is so large that with 21 more it does not fit 32 bits, although no
    -- message of that limit can hold it.
    pub create_too_long :
        (bytes : List ℕ) (alloc : ℕ → Bool)
        → ((n : ℕ) → alloc n ≡ true)
        → peer.is_unix ≡ ok true
        → 20 ≤ msg_size
        → has (header_of host no_crypto fd bytes) Flag.new ≡ true
        → 2 ^ 32 ≤ (header_of host no_crypto fd bytes).psize + 21
        → process_daemon_recv_create host no_crypto alloc sizeof_entry msg_size fd peer bytes
          ≡ ok (record (entry_set_flag (header_of host no_crypto fd bytes) Flag.progress) {
            session = zeros session_max;
          })
    unfolding process_daemon_recv_create start_session has_operation conn_is_remote conn_is_local
    create_too_long bytes alloc room local limit new long =
        let sent = header_of host no_crypto fd bytes in
        let (id, payload, size) = header_lem fd bytes in
        let small : u32 (sent.psize + 21) ≤ msg_size = omega arith in
        let wrapped : ltb msg_size (u32 (sent.psize + 21)) ≡ false = ground arith in
        ground (arith, room sizeof_entry, room session_max, wrapped)
