-- ===== src/Geofence/Engine/Commits.antt =====
-- A set with a zone that is proposed again and again: the position at which `OnPosition` commits it.
use cdp_go.Base.{
  Bytes, List, ap, arith, false, if◌then◌else◌, leb, suc, true, zero, ℕ, ◌+◌, ◌-◌, ◌<◌, ◌∙◌, ◌∷◌,
  ◌≡◌, ◌≢◌, ◌≤◌,
}
use cdp_go.Geofence.Engine.{TagState, commit_proposal, count_proposal}
use cdp_go.Geofence.Engine.Counting.{observe}
use cdp_go.Geofence.ZoneSet.{ZoneSet, elems, names, nil}
use cdp_go.Geofence.ZoneSet.Diff.{equal_iff}

-- The state after `n` proposals of one set.
unfoldable pub propose_times : ℕ → ℕ → ZoneSet → TagState → TagState
propose_times zero hysteresis p st = st
propose_times (suc n) hysteresis p st = (observe hysteresis p (propose_times n hysteresis p st)).0

-- The proposed set is another one than the committed and the pending one.
pub record IsFresh (p : ZoneSet) (st : TagState) : Type 0 where
  pub not_committed : elems p ≢ elems st.committed
  pub not_pending : elems p ≢ elems st.pending

module _ (hysteresis : ℕ) (name : Bytes) (others : List Bytes) (st : TagState)
    (fresh : IsFresh (names (name ∷ others)) st) where
  abbrev proposed : ZoneSet
  proposed = names (name ∷ others)

  abbrev counted : ℕ → TagState
  counted n = record st { pending = proposed; pending_count = n }

  abbrev committed_state : TagState
  committed_state = record st { committed = proposed; pending = nil; pending_count = 0 }

  observe_first :
      observe hysteresis proposed st
      ≡ (if leb hysteresis 1 then (committed_state, true) else (counted 1, false))
  unfolding observe count_proposal commit_proposal
  observe_first = ground (
    arith,
    equal_iff proposed st.committed,
    equal_iff proposed st.pending,
    fresh.not_committed,
    fresh.not_pending,
  )

  observe_next :
      (n : ℕ)
      → observe hysteresis proposed (counted n)
        ≡ (if leb hysteresis (n + 1) then (committed_state, true) else (counted (n + 1), false))
  unfolding observe count_proposal commit_proposal
  observe_next n =
      ground
        (arith, equal_iff proposed st.committed, equal_iff proposed proposed, fresh.not_committed)

  -- Until the hysteresis is reached the proposals are counted.
  counts_up :
      (n : ℕ) → suc n < hysteresis → propose_times (suc n) hysteresis proposed st ≡ counted (suc n)
  unfolding propose_times
  counts_up zero h = ap (λ r. r.0) observe_first ∙ ground arith
  counts_up (suc n) h =
      ap (λ s. (observe hysteresis proposed s).0) (counts_up n (omega arith))
      ∙ ap (λ r. r.0) (observe_next (suc n))
      ∙ ground arith

  observe_after :
      (n : ℕ)
      → suc n ≤ hysteresis
      → observe hysteresis proposed (propose_times n hysteresis proposed st)
        ≡ (if leb hysteresis (n + 1) then (committed_state, true) else (counted (n + 1), false))
  observe_after zero h = unfold propose_times in observe_first ∙ ground arith
  observe_after (suc n) h = rw (counts_up n h) (observe_next (suc n))

  -- With a positive hysteresis, a set with a zone in it that is neither the committed nor the
  -- pending one is committed by the position that makes `hysteresis` proposals of it in a row, with
  -- the pending set and the count reset and nothing else of the tag's state changed, and by none
  -- before.
  pub commits_at_hysteresis :
      0 < hysteresis
      → (observe hysteresis proposed (propose_times (hysteresis - 1) hysteresis proposed st)
          ≡ (committed_state, true))
        × ((n : ℕ)
            → suc n < hysteresis
            → (observe hysteresis proposed (propose_times n hysteresis proposed st)).1 ≡ false)
  commits_at_hysteresis h =
      (ground (arith, observe_after (hysteresis - 1)), λ n below. ground (arith, observe_after n))
