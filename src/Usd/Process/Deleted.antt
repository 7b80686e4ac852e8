-- ===== src/Usd/Process/Deleted.antt =====
-- What the pool holds after a request to delete entries.
use native.Mathlib.Decide.{ℕ_discrete}
use usched.Base.{
  ℕ, suc, ◌*◌, ◌≡◌, ◌≢◌, ◌∙◌, ap, Bool, true, false, ◌&&◌, ◌||◌, List, [], ◌∷◌, ◌++◌, Option, none,
  some, ◌==◌, if◌then◌else◌, ok, arith, Outcome-cases, Bool-cases, inl, inr, length,
}
use usched.Common.Entry.{Entry}
use usched.Common.Entry.Payload.{Cipher}
use usched.Usd.Libs.{Cll, IsCll, Psched}
use usched.Usd.Runtime.{Rund, set_rund_flag, serialize}
use usched.Usd.Authorize.{listed}
use usched.Usd.Schedule.Delete.{deletable, after_delete, search-delete, delete_keeps_others}
use usched.Usd.Process.{requested, delete_each, process_recv_update_op_del}

-- What a search finds after a deletion of the ids that `later` stands for.
abbrev left_over : Option Entry → ℕ → Bool → Option Entry
left_over s uid later = if later && deletable s uid then none else s

merge :
    (s : Option Entry) (uid : ℕ) (here later : Bool)
    → left_over (if deletable s uid && here then none else s) uid later
      ≡ left_over s uid (here || later)
merge s uid true true = ground (arith, Bool-cases (deletable s uid))
merge s uid true false = ground (arith, Bool-cases (deletable s uid))
merge s uid false true = ground (arith, Bool-cases (deletable s uid))
merge s uid false false = ground (arith, Bool-cases (deletable s uid))

module _ {P S : Type 0} (cll : Cll P) (psched : Psched S) (alloc : ℕ → Bool) (fresh : ℕ → List ℕ)
    (cipher : Cipher) (garbage : ℕ → ℕ) (is_cll : IsCll cll) where
  each_keeps :
      (uid : ℕ) (r : Rund P S) (ids deleted : List ℕ) (k : ℕ) (e : Entry)
      → cll.search r.apool k ≡ some e
      → e.uid ≢ uid
      → cll.search (delete_each cll psched alloc fresh cipher garbage uid r ids deleted).0.apool k
        ≡ some e
  unfolding delete_each
  each_keeps uid r [] deleted k e there foreign = there
  each_keeps uid r (id ∷ ids) deleted k e there foreign =
      let r' = after_delete cll psched is_cll r id uid in
      let stays = delete_keeps_others cll psched is_cll r id uid k e there foreign in
      ground (
        arith,
        stays,
        each_keeps uid r' ids deleted k e stays foreign,
        each_keeps uid (set_rund_flag r' serialize) ids (deleted ++ id ∷ []) k e stays foreign,
      )

  -- The loop after its first id, whether this one was deleted or not.
  each_step :
      (uid : ℕ) (r : Rund P S) (id : ℕ) (ids deleted : List ℕ) (k : ℕ) {s : Option Entry}
      → ((n : ℕ) → alloc n ≡ true)
      → cll.search
          (delete_each cll psched alloc fresh cipher garbage uid
            (after_delete cll psched is_cll r id uid)
            ids
            deleted).0.apool
          k
        ≡ s
      → cll.search
          (delete_each cll psched alloc fresh cipher garbage uid
            (set_rund_flag (after_delete cll psched is_cll r id uid) serialize)
            ids
            (deleted ++ id ∷ [])).0.apool
          k
        ≡ s
      → cll.search
          (delete_each cll psched alloc fresh cipher garbage uid r (id ∷ ids) deleted).0.apool
          k
        ≡ s
  unfolding delete_each
  each_step uid r id ids deleted k room kept removed =
      ground (arith, kept, removed, room (suc (length deleted) * 8))

  -- The first deletion, told by what the pool holds under the id that is looked for.
  delete_here :
      (uid : ℕ) (r : Rund P S) (id k : ℕ)
      → cll.search (after_delete cll psched is_cll r id uid).apool k
        ≡ (if deletable (cll.search r.apool k) uid && (id == k) then none else cll.search r.apool k)
  delete_here uid r id k = search-delete cll psched is_cll r id uid k ∙ elim (ℕ_discrete id k) [
    | yes same ↦
        ap (λ s. if deletable s uid && (id == k) then none else cll.search r.apool k)
          (ap (λ j. cll.search r.apool j) same)
    | no other ↦ ground (
      arith,
      Bool-cases (deletable (cll.search r.apool id) uid),
      Bool-cases (deletable (cll.search r.apool k) uid),
    )
  ]

  each_lem :
      (uid : ℕ) (r : Rund P S) (ids deleted : List ℕ) (k : ℕ)
      → ((n : ℕ) → alloc n ≡ true)
      → cll.search (delete_each cll psched alloc fresh cipher garbage uid r ids deleted).0.apool k
        ≡ (if listed ids k && deletable (cll.search r.apool k) uid
            then none
            else cll.search r.apool k)
  unfolding delete_each listed
  each_lem uid r [] deleted k room = ground arith
  each_lem uid r (id ∷ ids) deleted k room =
      each_step uid r id ids deleted k room
        (each_lem uid (after_delete cll psched is_cll r id uid) ids deleted k room)
        (each_lem uid (set_rund_flag (after_delete cll psched is_cll r id uid) serialize) ids
          (deleted ++ id ∷ []) k room)
      ∙ (ap (λ s. left_over s uid (listed ids k)) (delete_here uid r id k)
          ∙ merge (cll.search r.apool k) uid (id == k) (listed ids k))

  -- With a pool that keeps its laws: no request deletes the entry of a user other than the one it was authorized for, whatever ids it
  -- names and whatever the list of all entries holds where it was not written.
  pub del_keeps_others :
      (r : Rund P S) (request : Entry) (k : ℕ) (e : Entry)
      → cll.search r.apool k ≡ some e
      → e.uid ≢ request.uid
      → cll.search
          (process_recv_update_op_del cll psched alloc fresh cipher garbage r request).0.apool
          k
        ≡ some e
  unfolding process_recv_update_op_del
  del_keeps_others r request k e there foreign =
      elim (Outcome-cases (requested cll psched alloc fresh cipher garbage r request)) [
        | inr (x, failed) ↦ ground (arith, failed)
        | inl (ids, asked) ↦
            ground (arith, asked, each_keeps request.uid r ids [] k e there foreign)
      ]

  -- With a pool that keeps its laws, and if memory can be had: a request to delete takes out of the pool exactly those of the entries that it
  -- names which its user may delete, and leaves all others.
  pub del_removes :
      (r : Rund P S) (request : Entry) (ids : List ℕ) (k : ℕ)
      → ((n : ℕ) → alloc n ≡ true)
      → requested cll psched alloc fresh cipher garbage r request ≡ ok ids
      → cll.search
          (process_recv_update_op_del cll psched alloc fresh cipher garbage r request).0.apool
          k
        ≡ (if listed ids k && deletable (cll.search r.apool k) request.uid
            then none
            else cll.search r.apool k)
  unfolding process_recv_update_op_del
  del_removes r request ids k room asked =
      ground (arith, asked, each_lem request.uid r ids [] k room)
