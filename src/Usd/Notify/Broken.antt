-- ===== src/Usd/Notify/Broken.antt =====
-- A header after which the pool of connections has an entry that was freed.
pub mod NewQuery
mod Tests
use usched.Base.{
  ℕ, ◌<◌, ◌≡◌, refl, ◌∙◌, Bool, true, false, not, ◌&&◌, ◌||◌, List, none, some, ◌==◌, if◌then◌else◌,
  ok, err, arith, inl, inr, Bool-cases,
}
use usched.Common.Flag
use usched.Common.Entry.{
  Entry, Crypto, entry_has_flag, entry_set_flag, entry_unset_flag, entry_cleanup_crypto,
  entry_cleanup_session,
}
use usched.Common.Entry.Flags.{has, has-entry_set_flag, has-entry_unset_flag}
use usched.Usd.Libs.{Cll}
use usched.Usd.Authorize.{Peer}
use usched.Usd.Process.Stages.{process_daemon_recv_create}
use usched.Usd.Process.Stages.Received.{sent_flag, recv_create-IsOpened}
use usched.Usd.Notify.{
  Server, Answers, Next, writes, discard, enqueue, completed, is_query, read_state, read_replied,
}

completed_flag :
    (e : Entry) (f : ℕ)
    → f < 32
    → has (completed e) f
      ≡ (if Flag.complete == f then true else if Flag.progress == f then false else has e f)
unfolding completed entry_cleanup_crypto entry_cleanup_session entry_has_flag
completed_flag e f small = ground (
  arith,
  has-entry_set_flag (entry_unset_flag e Flag.progress) Flag.complete f,
  has-entry_unset_flag e Flag.progress f,
)

pub is_query-completed : (e : Entry) → is_query (completed e) ≡ is_query e
unfolding is_query
is_query-completed e = ground (arith, completed_flag e Flag.get, completed_flag e Flag.del)

pub or_true : (b : Bool) → (b || true) ≡ true
or_true true = refl
or_true false = refl

sent_query :
    (e : Entry) (bytes : List ℕ)
    → has e Flag.get ≡ sent_flag bytes Flag.get
    → has e Flag.del ≡ sent_flag bytes Flag.del
    → (sent_flag bytes Flag.get || sent_flag bytes Flag.del) ≡ true
    → is_query e ≡ true
unfolding is_query
sent_query e bytes g d query = rw (g, d) query

module _ {P S : Type 0} (cll : Cll P) (answers : Answers) (s : Server P S) (fd : ℕ) where
  broken_stays : (b : Bool) → (discard cll answers (record s { broken = b }) fd).0.broken ≡ b
  unfolding discard
  broken_stays b = ground arith

  pub broken-enqueue :
      (s' : Server P S) (next : Next) → (enqueue cll answers s' fd next).0.broken ≡ s'.broken
  unfolding enqueue discard
  broken-enqueue s' next = ground arith

  -- If the header of a query has the flag FINISH, which is one of the daemon's own, then the first
  -- notification frees the entry that it has just put into the pool of connections.
  pub finished_header_breaks :
      (host : List ℕ → ℕ) (no_crypto : Crypto) (sizeof_entry msg_size : ℕ) (peer : Peer)
      (bytes : List ℕ) (e : Entry)
      → process_daemon_recv_create host no_crypto answers.alloc sizeof_entry msg_size fd peer bytes
        ≡ ok e
      → sent_flag bytes Flag.finish ≡ true
      → (sent_flag bytes Flag.get || sent_flag bytes Flag.del) ≡ true
      → (read_state cll answers s fd e).0.broken ≡ true
  unfolding read_state
  finished_header_breaks host no_crypto sizeof_entry msg_size peer bytes e created finish query =
      let opened =
        recv_create-IsOpened host no_crypto answers.alloc sizeof_entry msg_size fd peer bytes e
          created in
      let done : has e Flag.finish ≡ true = opened.flags Flag.finish ∙ finish in
      let asks : is_query (completed e) ≡ true =
        is_query-completed e
        ∙ sent_query e bytes (opened.flags Flag.get) (opened.flags Flag.del) query in
      rw (done, asks) (broken-enqueue _ (writes e.session) ∙ or_true s.broken)
