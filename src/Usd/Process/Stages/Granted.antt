-- ===== src/Usd/Process/Stages/Granted.antt =====
-- The second stage of a received entry: on whose behalf it acts.
use usched.Base.{
  ℕ, ◌≡◌, refl, ◌∙◌, Bool, true, false, not, ◌||◌, List, Option, none, some, ◌⊎◌, inl, inr, Outcome,
  ok, err, Errno, ◌==◌, ◌+◌, length, take, drop, arith, Outcome-cases, Bool-cases,
}
use usched.Common.Config.{session_max}
use usched.Common.Flag
use usched.Common.Entry.{Entry, entry_has_flag, entry_set_flag, entry_set_payload}
use usched.Common.Entry.Flags.{has, has-entry_set_flag}
use usched.Common.Entry.Payload.{Cipher, entry_payload_decrypt}
use usched.Usd.Libs.{Cll, Psched}
use usched.Usd.Runtime.{Rund}
use usched.Usd.Authorize.{Peer, AuthConfig, entry_daemon_authorize}
use usched.Usd.Authorize.Exact.{proven, passes_lists, Authorizes, authorize_lem}
use usched.Usd.Process.New.{Updated, dropped}
use usched.Usd.Process.Stages.{admit, filled, operate, carry_out, process_daemon_recv_update}

-- Who may act, by what the connection proves.
pub record IsGranted (config : AuthConfig) (entry : Entry) (fd : Peer) (acting : Entry)
    : Type 0 where
  pub owner : proven entry fd ≡ some (acting.uid, acting.gid)
  pub passes : passes_lists config acting.uid acting.gid ≡ true

set_flag_owner :
    (e : Entry) (f : ℕ) → ((entry_set_flag e f).uid ≡ e.uid) × ((entry_set_flag e f).gid ≡ e.gid)
unfolding entry_set_flag
set_flag_owner e f = (refl, refl)

has-session : (e : Entry) (s : List ℕ) (f : ℕ) → has (record e { session = s }) f ≡ has e f
unfolding entry_has_flag
has-session e s f = refl

admit_by :
    (c : AuthConfig) (e : Entry) (fd : Peer) (e' : Entry) (p : Option (ℕ × ℕ))
    (check : Entry × Outcome Bool)
    → entry_daemon_authorize c e fd ≡ check
    → Authorizes c e p check
    → has e Flag.authorized ≡ false
    → admit c e fd ≡ ok e'
    → (p ≡ some (e'.uid, e'.gid)) × (passes_lists c e'.uid e'.gid ≡ true)
unfolding admit
admit_by c e fd e' none (e1, ok b) ran (same, failed) bare h = cc
admit_by c e fd e' none (e1, err x) ran (same, failed) bare h = ground arith
admit_by c e fd e' (some (uid, gid)) (e1, err x) ran (u, g, flag, status) bare h = cc
admit_by c e fd e' (some (uid, gid)) (e1, ok b) ran (u, g, flag, status) bare h = ground (
  arith,
  has-entry_set_flag e1 Flag.finish Flag.authorized,
  set_flag_owner e1 Flag.finish,
  Bool-cases (has e1 Flag.finish),
  Bool-cases (passes_lists c uid gid),
)

pub admit-IsGranted :
    (c : AuthConfig) (e : Entry) (fd : Peer) (e' : Entry)
    → has e Flag.authorized ≡ false
    → admit c e fd ≡ ok e'
    → IsGranted c e fd e'
admit-IsGranted c e fd e' bare h =
    let (owner, passes) =
      admit_by c e fd e' (proven e fd) (entry_daemon_authorize c e fd) refl (authorize_lem c e fd)
        bare h in
    record { owner = owner; passes = passes }

IsGranted-same :
    (c : AuthConfig) (e : Entry) (fd : Peer) (a b : Entry)
    → a.uid ≡ b.uid
    → a.gid ≡ b.gid
    → IsGranted c e fd b
    → IsGranted c e fd a
IsGranted-same c e fd a b u g granted = record {
  owner = rw (u, g) granted.owner;
  passes = rw (u, g) granted.passes;
}

module _ {P S : Type 0} (cll : Cll P) (psched : Psched S) (alloc : ℕ → Bool) (fresh : ℕ → List ℕ)
    (cipher : Cipher) (garbage : ℕ → ℕ) (blake2s : List ℕ → List ℕ) (sizeof_entry : ℕ) where
  filled_owner :
      (e : Entry) (fd : Peer) (payload : List ℕ) (e' : Entry)
      → filled cll psched alloc fresh cipher garbage blake2s sizeof_entry e fd payload ≡ ok e'
      → (e'.uid ≡ e.uid) × (e'.gid ≡ e.gid)
  unfolding filled entry_set_payload entry_payload_decrypt
  filled_owner e fd payload e' h = ground arith

  -- The request was discarded with the runtime as it was; or an entry was operated on, of the user and
  -- group that the connection proves for the request, which pass the lists.
  abbrev pub ActsAsGranted :
      AuthConfig
      → (clock : ℕ → ℕ) (fuel now : ℕ) → Rund P S
      → Entry
      → Peer
      → Rund P S
      → Updated
      → Type 0
  ActsAsGranted c clock fuel now r asked fd r' out =
      ((r' ≡ r) × (e : Errno) × (out ≡ dropped e))
      ⊎ ((acting : Entry) × IsGranted c asked fd acting
          × (operate cll psched alloc fresh cipher garbage blake2s sizeof_entry clock fuel now r
                acting
              ≡ some (r', out)))

  module _ (config : AuthConfig) (clock : ℕ → ℕ) (fuel now : ℕ) (r r' : Rund P S)
      (out : Updated) where
    discards :
        (asked : Entry) (fd : Peer) (x : Errno)
        → ◌≡◌ {A = Option (Rund P S × Updated)} (some (r, dropped x)) (some (r', out))
        → ActsAsGranted config clock fuel now r asked fd r' out
    discards asked fd x h = inl (cc, x, cc)

    carry_out-IsGranted :
        (asked : Entry) (fd : Peer) (payload : List ℕ)
        → has asked Flag.authorized ≡ false
        → carry_out cll psched alloc fresh cipher garbage blake2s sizeof_entry config clock fuel now
            r asked fd payload
          ≡ some (r', out)
        → ActsAsGranted config clock fuel now r asked fd r' out
    unfolding carry_out
    carry_out-IsGranted asked fd payload bare h = elim (Outcome-cases (admit config asked fd)) [
      | inr (x, failed) ↦ inl (ground arith, x, ground arith)
      | inl (admitted, passed) ↦
          elim (Outcome-cases (
            filled cll psched alloc fresh cipher garbage blake2s sizeof_entry admitted fd
              payload)) [
                | inr (x, failed) ↦ inl (ground (arith, passed), x, ground (arith, passed))
                | inl (acting, full) ↦
                    let ran : operate cll psched alloc fresh cipher garbage blake2s sizeof_entry
                          clock fuel now r acting
                        ≡ some (r', out) =
                      ground (arith, passed, full) in
                    let (u, g) = filled_owner admitted fd payload acting full in
                    inr (
                      acting,
                      IsGranted-same config asked fd acting admitted u g
                          (admit-IsGranted config asked fd admitted bare passed),
                      ran,
                    )
              ]
    ]

    -- For an entry that is not marked as authorized yet: its request is discarded and changes nothing,
    -- or it is carried out as the user and the group that the connection proves, and these pass the
    -- lists.
    pub update_granted :
        (entry : Entry) (fd : Peer) (bytes : List ℕ)
        → has entry Flag.authorized ≡ false
        → process_daemon_recv_update cll psched alloc fresh cipher garbage blake2s sizeof_entry
            config clock fuel now r entry fd bytes
          ≡ some (r', out)
        → ActsAsGranted config clock fuel now r
            (record entry { session = take session_max bytes })
            fd
            r'
            out
    unfolding process_daemon_recv_update
    update_granted entry fd bytes bare h =
        let asked = record entry { session = take session_max bytes } in
        elim (Bool-cases (not (has entry Flag.init))) [
          | inl raw ↦ discards asked fd Errno.einval (ground arith)
          | inr e1 ↦ elim (Bool-cases (has entry Flag.complete || has entry Flag.finish)) [
            | inl done ↦ discards asked fd Errno.einval (ground arith)
            | inr e2 ↦ elim (Bool-cases (length bytes == session_max + entry.psize)) [
              | inr odd ↦ discards asked fd Errno.einval (ground arith)
              | inl e3 ↦
                  carry_out-IsGranted asked fd (drop session_max bytes)
                    (has-session entry (take session_max bytes) Flag.authorized ∙ bare)
                    (ground arith)
            ]
          ]
        ]
