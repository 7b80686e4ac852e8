-- ===== src/Usd/Process/Stages/Operated.antt =====
-- The second stage of a received entry: the flags of the entry that is operated on.
use usched.Base.{
  ℕ, ◌<◌, ◌≡◌, ◌∙◌, Bool, true, false, ◌||◌, List, some, ok, ◌==◌, ◌+◌, length, take, drop, arith,
  Outcome-cases, Bool-cases, inl, inr, if◌then◌else◌,
}
use usched.Common.Config.{session_max}
use usched.Common.Flag
use usched.Common.Entry.{Entry, entry_set_payload}
use usched.Common.Entry.Flags.{has, has-entry_set_flag}
use usched.Common.Entry.Payload.{Cipher, entry_payload_decrypt}
use usched.Usd.Libs.{Cll, Psched}
use usched.Usd.Runtime.{Rund}
use usched.Usd.Authorize.{Peer, AuthConfig, entry_daemon_authorize}
use usched.Usd.Authorize.Flags.{authorize-has, same_flags}
use usched.Usd.Process.New.{replied}
use usched.Usd.Process.Stages.{admit, filled, operate, carry_out, process_daemon_recv_update}

-- The flags of the request, with FINISH; nothing is said of AUTHORIZED.
pub record IsFinished (asked acting : Entry) : Type 0 where
  pub flags :
      (f : ℕ)
      → f < 32
      → (Flag.authorized == f) ≡ false
      → has acting f ≡ (if Flag.finish == f then true else has asked f)

admit-IsFinished :
    (c : AuthConfig) (e : Entry) (fd : Peer) (e' : Entry) → admit c e fd ≡ ok e' → IsFinished e e'
unfolding admit
admit-IsFinished c e fd e' h = record {
  flags = λ f small other. ground (
    arith,
    h,
    authorize-has c f e fd small other,
    has-entry_set_flag e Flag.finish f,
    has-entry_set_flag (entry_daemon_authorize c e fd).0 Flag.finish f,
  );
}

module _ {P S : Type 0} (cll : Cll P) (psched : Psched S) (alloc : ℕ → Bool) (fresh : ℕ → List ℕ)
    (cipher : Cipher) (garbage : ℕ → ℕ) (blake2s : List ℕ → List ℕ) (sizeof_entry : ℕ) where
  filled-flags :
      (e : Entry) (fd : Peer) (payload : List ℕ) (e' : Entry)
      → filled cll psched alloc fresh cipher garbage blake2s sizeof_entry e fd payload ≡ ok e'
      → e'.flags ≡ e.flags
  unfolding filled entry_set_payload entry_payload_decrypt
  filled-flags e fd payload e' h = ground arith

  module _ (config : AuthConfig) (clock : ℕ → ℕ) (fuel now : ℕ) (r r' : Rund P S) (e : Entry)
      (reply : List ℕ) where
    -- The reply is that of an operation on an entry with the flags of the request.
    abbrev pub RepliesTo : Entry → Type 0
    RepliesTo asked =
        (acting : Entry) × IsFinished asked acting
        × (operate cll psched alloc fresh cipher garbage blake2s sizeof_entry clock fuel now r
              acting
            ≡ some (r', replied e reply))

    carry_out-RepliesTo :
        (asked : Entry) (fd : Peer) (payload : List ℕ)
        → carry_out cll psched alloc fresh cipher garbage blake2s sizeof_entry config clock fuel now
            r asked fd payload
          ≡ some (r', replied e reply)
        → RepliesTo asked
    unfolding carry_out
    carry_out-RepliesTo asked fd payload h = elim (Outcome-cases (admit config asked fd)) [
      | inr (x, failed) ↦ absurd (ground (arith, failed))
      | inl (admitted, passed) ↦
          elim (Outcome-cases (
            filled cll psched alloc fresh cipher garbage blake2s sizeof_entry admitted fd
              payload)) [
                | inr (x, failed) ↦ absurd (ground (arith, passed, failed))
                | inl (acting, full) ↦
                    let finished = admit-IsFinished config asked fd admitted passed in
                    let same = filled-flags admitted fd payload acting full in
                    (
                      acting,
                      record {
                        flags = λ f small other.
                            same_flags acting admitted f same ∙ finished.flags f small other;
                      },
                      ground (arith, passed, full),
                    )
              ]
    ]

    pub update-RepliesTo :
        (entry : Entry) (fd : Peer) (bytes : List ℕ)
        → process_daemon_recv_update cll psched alloc fresh cipher garbage blake2s sizeof_entry
            config clock fuel now r entry fd bytes
          ≡ some (r', replied e reply)
        → RepliesTo (record entry { session = take session_max bytes })
    unfolding process_daemon_recv_update
    update-RepliesTo entry fd bytes h =
        carry_out-RepliesTo (record entry { session = take session_max bytes }) fd
          (drop session_max bytes)
          (ground (
            arith,
            Bool-cases (has entry Flag.init),
            Bool-cases (has entry Flag.complete || has entry Flag.finish),
            Bool-cases (length bytes == session_max + entry.psize),
          ))
