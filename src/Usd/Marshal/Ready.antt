-- ===== src/Usd/Marshal/Ready.antt =====
-- The pool after a load: which entries are kept, and with which triggers.
use usched.Base.{
  ℕ, suc, ◌+◌, ◌≤◌, ◌<◌, ◌≡◌, ◌⊎◌, inl, inr, refl, Option, ◌∙◌, false, ◌&&◌, List, [], ◌∷◌, some,
  leb, truthy, arith, Bool-cases, ok,
}
use usched.Common.Entry.{Entry}
use usched.Usd.Libs.{Psched, Calendar}
use usched.Usd.Marshal.{deletes, keeps, with_first, rearm, activate_each, catch_up}
use usched.Usd.Marshal.CatchUp.{still, at, IsPlain, IsCaughtUp, caught_up}

module _ (now : ℕ) where
  -- All entries are plain, and the rounds are enough for each.
  abbrev pub ArePlain : (fuel : ℕ) → List Entry → Type 0
  ArePlain fuel [] = Unit
  ArePlain fuel (e ∷ pool) = IsPlain now e × (now + e.trigger + 2 ≤ fuel) × ArePlain fuel pool

  module _ {R : Type 0} (cal : Calendar R) where
    -- Of the pool that was loaded are kept, in their order, the entries whose next trigger is before they
    -- expire, with this trigger and a new timer.
    pub data Activation : List Entry → List Entry → Type 0 where
      none_left : Activation [] []
      expired :
          {e : Entry} {t' : ℕ} {pool kept : List Entry}
          → IsCaughtUp now cal e t'
          → 0 < e.expire
          → e.expire ≤ t'
          → Activation pool kept
          → Activation (e ∷ pool) kept
      activated :
          {e : Entry} {t' : ℕ} {pool kept : List Entry} (id : ℕ)
          → IsCaughtUp now cal e t'
          → (e.expire ≡ 0) ⊎ (t' < e.expire)
          → Activation pool kept
          → Activation (e ∷ pool) (record e { trigger = t'; psched_id = id } ∷ kept)

    module _ {S : Type 0} (psched : Psched S) where
      abbrev pub Arms : S → (trigger step expire : ℕ) → Type 0
      Arms s t step x = (id : ℕ) × (s' : S) × (psched.arm s t step x ≡ ok (id, s'))

      rearm_expired :
          (s : S) (n t' : ℕ) (e : Entry)
          → 0 < e.expire
          → e.expire ≤ t'
          → rearm (still now) cal psched s n (at now t' e) ≡ (n, deletes)
      unfolding rearm
      rearm_expired s n t' e h k = ground arith

      rearm_kept :
          (s s' : S) (n t' id : ℕ) (e : Entry)
          → now < t'
          → (truthy e.expire && leb e.expire t') ≡ false
          → psched.arm s t' e.step e.expire ≡ ok (id, s')
          → rearm (still now) cal psched s n (at now t' e)
            ≡ (suc n, keeps s' (record e { trigger = t'; psched_id = id }))
      unfolding rearm
      rearm_kept s s' n t' id e future lasts armed = ground arith

      with_kept :
          (e : Entry) (rest : Option (Option (List Entry × S))) (kept : List Entry) (s : S)
          → rest ≡ some (some (kept, s))
          → with_first e rest ≡ some (some (e ∷ kept, s))
      unfolding with_first
      with_kept e rest kept s same = rw same refl

      each_deletes :
          (fuel n n' t' : ℕ) (s : S) (e : Entry) (pool : List Entry)
          → catch_up (still now) cal fuel n e ≡ some (n', at now t' e)
          → rearm (still now) cal psched s n' (at now t' e) ≡ (n', deletes)
          → activate_each (still now) cal psched fuel n s (e ∷ pool)
            ≡ activate_each (still now) cal psched fuel n' s pool
      unfolding activate_each
      each_deletes fuel n n' t' s e pool went gone = ground arith

      each_keeps :
          (fuel n n' n2 t' : ℕ) (s s1 : S) (e kept : Entry) (pool : List Entry)
          → catch_up (still now) cal fuel n e ≡ some (n', at now t' e)
          → rearm (still now) cal psched s n' (at now t' e) ≡ (n2, keeps s1 kept)
          → activate_each (still now) cal psched fuel n s (e ∷ pool)
            ≡ with_first kept (activate_each (still now) cal psched fuel n2 s1 pool)
      unfolding activate_each
      each_keeps fuel n n' n2 t' s s1 e kept pool went stays = ground arith

      -- If the scheduler can arm every timer and the clock shows the same second, a pool of recurrent entries
      -- that are not aligned to the calendar is activated within as many rounds for each as now and its
      -- trigger have seconds, and kept are exactly the entries whose next trigger is before they expire.
      pub activate-Activation :
          (arms : (s : S) (t step x : ℕ) → Arms s t step x) (fuel n : ℕ) (s : S) (pool : List Entry)
          → ArePlain fuel pool
          → (kept : List Entry) × (s' : S) × (activate_each (still now) cal psched fuel n s pool
              ≡ some (some (kept, s')))
            × Activation pool kept
      unfolding activate_each
      activate-Activation arms fuel n s [] plain = ([], s, refl, none_left)
      activate-Activation arms fuel n s (e ∷ pool) (plain, enough, rest_plain) =
          let (n', t', went, caught) = caught_up now cal fuel n e plain enough in
          elim (Bool-cases (truthy e.expire && leb e.expire t')) [
            | inl late ↦
                let (kept, s', done, active) = activate-Activation arms fuel n' s pool rest_plain in
                (
                  kept,
                  s',
                  each_deletes fuel n n' t' s e pool went
                        (rearm_expired s n' t' e (ground arith) (ground arith))
                      ∙ done,
                  expired caught (ground arith) (ground arith) active,
                )
            | inr lasts ↦
                let (id, s1, armed) = arms s t' e.step e.expire in
                let (kept, s', done, active) =
                  activate-Activation arms fuel (suc n') s1 pool rest_plain in
                (
                  record e { trigger = t'; psched_id = id } ∷ kept,
                  s',
                  each_keeps fuel n n' (suc n') t' s s1 e _ pool went
                        (rearm_kept s s1 n' t' id e caught.0 lasts armed)
                      ∙ with_kept _ _ kept s' done,
                  activated id caught (ground arith) active,
                )
          ]
