-- ===== src/Usd/Notify/Broken/NewQuery.antt =====
-- src/usd/notify.c, the end of `notify_read`: a request that asks for a new entry and is a query too.
use usched.Base.{ℕ, ◌≡◌, refl, ◌∙◌, ap, Bool, true, List, some, arith, take}
use usched.Common.Config.{session_max}
use usched.Common.Flag
use usched.Common.Entry.{Entry, Crypto, entry_set_subj}
use usched.Common.Entry.Flags.{has}
use usched.Common.Entry.Payload.{Cipher}
use usched.Usd.Libs.{Cll, IsCll, Psched, IsPsched}
use usched.Usd.Runtime.{Rund}
use usched.Usd.Runtime.Fatal.{apool-fatal}
use usched.Usd.Authorize.{Peer, AuthConfig}
use usched.Usd.Authorize.Flags.{same_flags}
use usched.Usd.Process.New.{replied, payload_text}
use usched.Usd.Process.New.Installed.{new_installs}
use usched.Usd.Process.Stages.{operate, process_daemon_recv_update}
use usched.Usd.Process.Stages.Operated.{IsFinished, update-RepliesTo}
use usched.Usd.Notify.{
  Server, Answers, Next, writes, discard, enqueue, completed, is_query, read_replied, read_update,
}
use usched.Usd.Notify.Broken.{is_query-completed, or_true, broken-enqueue}

-- The entry of the reply is new, a query, and finished.
record IsNewQuery (e : Entry) : Type 0 where
  finish : has e Flag.finish ≡ true
  new : has e Flag.new ≡ true
  query : is_query e ≡ true

query_of :
    (a b : Entry)
    → has a Flag.get ≡ has b Flag.get
    → has a Flag.del ≡ has b Flag.del
    → is_query b ≡ true
    → is_query a ≡ true
unfolding is_query
query_of a b g d query = rw (g, d) query

named_flags :
    (alloc : ℕ → Bool) (e : Entry) (bytes : List ℕ) (n : ℕ)
    → (entry_set_subj alloc e bytes n).0.flags ≡ e.flags
unfolding entry_set_subj
named_flags alloc e bytes n = ground arith

finished_query :
    (asked acting e : Entry)
    → IsFinished asked acting
    → e.flags ≡ acting.flags
    → has asked Flag.new ≡ true
    → is_query asked ≡ true
    → IsNewQuery e
finished_query asked acting e finished same new query =
    let flag : (f : ℕ) → has e f ≡ has acting f = λ f. same_flags e acting f same in
    record {
      finish = flag Flag.finish ∙ finished.flags Flag.finish (omega arith) refl;
      new = flag Flag.new ∙ finished.flags Flag.new (omega arith) refl ∙ new;
      query =
          query_of e asked (flag Flag.get ∙ finished.flags Flag.get (omega arith) refl)
            (flag Flag.del ∙ finished.flags Flag.del (omega arith) refl) query;
    }

module _ {P S : Type 0} (cll : Cll P) (answers : Answers) where
  apool-enqueue :
      (s : Server P S) (fd : ℕ) (next : Next)
      → (enqueue cll answers s fd next).0.rund.apool ≡ s.rund.apool
  unfolding enqueue discard
  apool-enqueue s fd next = ground (arith, apool-fatal s.rund)

  replied_breaks :
      (s : Server P S) (fd : ℕ) (e : Entry) (reply : List ℕ)
      → IsNewQuery e
      → cll.search s.rund.apool e.id ≡ some e
      → ((read_replied cll answers s fd e reply).0.rund.apool ≡ s.rund.apool)
        × ((read_replied cll answers s fd e reply).0.broken ≡ true)
  unfolding read_replied
  replied_breaks s fd e reply asked there =
      let still : is_query (completed e) ≡ true = is_query-completed e ∙ asked.query in
      (
        rw (asked.finish, still) (apool-enqueue _ fd (writes reply)),
        rw (asked.finish, still, asked.new, there)
            (broken-enqueue cll answers s fd _ (writes reply) ∙ or_true s.broken),
      )

module _ {P S : Type 0} (cll : Cll P) (psched : Psched S) (fresh : ℕ → List ℕ) (cipher : Cipher)
    (garbage : ℕ → ℕ) (blake2s : List ℕ → List ℕ) (host : List ℕ → ℕ) (no_crypto : Crypto)
    (sizeof_entry msg_size : ℕ) (config : AuthConfig) (is_cll : IsCll cll)
    (is_psched : IsPsched psched) where
  module _ (answers : Answers) (clock : ℕ → ℕ) (fuel now : ℕ) where
    operate-new :
        (r r' : Rund P S) (acting e : Entry) (reply : List ℕ)
        → has acting Flag.new ≡ true
        → operate cll psched answers.alloc fresh cipher garbage blake2s sizeof_entry clock fuel now
            r acting
          ≡ some (r', replied e reply)
        → (cll.search r'.apool e.id ≡ some e) × (e.flags ≡ acting.flags)
    unfolding operate
    operate-new r r' acting e reply new h =
        let installed =
          new_installs cll psched answers.alloc fresh cipher garbage blake2s is_cll is_psched clock
            fuel now r r' acting e reply (ground (arith, new)) in
        let flags = named_flags answers.alloc acting (payload_text acting) acting.psize in
        (ground (arith, installed.search e.id), ground (arith, installed.same, flags))

    -- With a pool and a scheduler that keep their laws: if a request that asks for a new entry and is a
    -- query as well is carried out and replied, then the notification ends with the entry of the reply
    -- in the active pool and freed.
    pub new_query_breaks :
        (s : Server P S) (fd : ℕ) (peer : Peer) (entry e : Entry) (bytes reply : List ℕ)
        (r' : Rund P S)
        → has entry Flag.new ≡ true
        → is_query entry ≡ true
        → process_daemon_recv_update cll psched answers.alloc fresh cipher garbage blake2s
            sizeof_entry config clock fuel now s.rund entry peer bytes
          ≡ some (r', replied e reply)
        → (s' : Server P S) × (next : Next) × (read_update cll psched fresh cipher garbage blake2s
              host no_crypto sizeof_entry msg_size config answers clock fuel now s fd peer entry
              bytes
            ≡ some (s', next))
          × (cll.search s'.rund.apool e.id ≡ some e)
          × (s'.broken ≡ true)
    unfolding read_update
    new_query_breaks s fd peer entry e bytes reply r' new query ran =
        let asked = record entry { session = take session_max bytes } in
        let (acting, finished, operated) =
          update-RepliesTo cll psched answers.alloc fresh cipher garbage blake2s sizeof_entry config
            clock fuel now s.rund r' e reply entry peer bytes ran in
        let acting_new : has acting Flag.new ≡ true =
          finished.flags Flag.new (omega arith) refl ∙ same_flags asked entry Flag.new refl ∙ new in
        let (there, flags) = operate-new s.rund r' acting e reply acting_new operated in
        let is_asked =
          finished_query asked acting e finished flags (same_flags asked entry Flag.new refl ∙ new)
            (query_of asked entry (same_flags asked entry Flag.get refl)
              (same_flags asked entry Flag.del refl) query) in
        let (pool, broken) =
          replied_breaks cll answers (record s { rund = r' }) fd e reply is_asked there in
        (
          (read_replied cll answers (record s { rund = r' }) fd e reply).0,
          (read_replied cll answers (record s { rund = r' }) fd e reply).1,
          rw (read_update, ran) refl,
          ap (λ p. cll.search p e.id) pool ∙ there,
          broken,
        )
