-- ===== src/Geofence/Engine/Counting.antt =====
-- The hysteresis of `OnPosition` for one tag: when a proposed set is committed.
use cdp_go.Base.{
  Bool, Bool-cases, List, [], arith, false, if◌then◌else◌, inl, inr, leb, not, refl, suc, true,
  zero, ℕ, ◌<◌, ◌||◌, ◌∙◌, ◌∷◌, ◌≡◌, ◌≢◌, ◌≤◌,
}
use cdp_go.Geofence.Engine.{TagState, commit_proposal, count_proposal, new_tag}
use cdp_go.Geofence.ZoneSet.{ZoneSet, elems, equal, is_nil, nil}
use cdp_go.Geofence.ZoneSet.Diff.{equal_iff}
use native.Mathlib.Numerals.{add-one}

-- What a call does to the state of its tag, for the set that the position lies in.
unfoldable pub observe : ℕ → ZoneSet → TagState → TagState × Bool
unfolding count_proposal commit_proposal
observe hysteresis proposed st = commit_proposal hysteresis proposed (count_proposal proposed st)

-- The state behind a history of proposals, the latest first.
unfoldable pub replay : ℕ → List ZoneSet → TagState
replay hysteresis [] = new_tag
replay hysteresis (p ∷ earlier) = (observe hysteresis p (replay hysteresis earlier)).0

-- The last `n` proposals were the set `z`.
abbrev pub Repeats : ℕ → ZoneSet → List ZoneSet → Type 0
Repeats zero z history = Unit
Repeats (suc n) z [] = ⊥
Repeats (suc n) z (p ∷ history) = (elems p ≡ elems z) × Repeats n z history

Repeats-subst :
    (n : ℕ) (z w : ZoneSet) (history : List ZoneSet)
    → elems z ≡ elems w
    → Repeats n z history
    → Repeats n w history
Repeats-subst zero z w history e h = tt
Repeats-subst (suc n) z w [] e h = h
Repeats-subst (suc n) z w (p ∷ history) e h = (h.0 ∙ e, Repeats-subst n z w history e h.1)

-- Between two calls the count is below the hysteresis, and it counts proposals of the pending
-- set, which is not the committed one.
pub record IsCounting (hysteresis : ℕ) (st : TagState) : Type 0 where
  pub below : st.pending_count < hysteresis
  pub differs : 0 < st.pending_count → elems st.pending ≢ elems st.committed
  pub idle : st.pending_count ≡ 0 → st.pending ≡ nil

pub new_tag-IsCounting : (hysteresis : ℕ) → 0 < hysteresis → IsCounting hysteresis new_tag
new_tag-IsCounting hysteresis h = record {
  below = h;
  differs = λ k. absurd (omega arith);
  idle = λ _. refl;
}

pub observe-IsCounting :
    (hysteresis : ℕ) (p : ZoneSet) (st : TagState)
    → 0 < hysteresis
    → IsCounting hysteresis st
    → IsCounting hysteresis (observe hysteresis p st).0
unfolding observe
observe-IsCounting hysteresis p st h c =
    ground (arith, equal_iff p st.committed, equal_iff p st.pending)

pub replay-IsCounting :
    (hysteresis : ℕ) (history : List ZoneSet)
    → 0 < hysteresis
    → IsCounting hysteresis (replay hysteresis history)
unfolding replay
replay-IsCounting hysteresis [] h = new_tag-IsCounting hysteresis h
replay-IsCounting hysteresis (p ∷ earlier) h =
    observe-IsCounting hysteresis p (replay hysteresis earlier) h
      (replay-IsCounting hysteresis earlier h)

-- The pending count is the length of the run of equal proposals at the end of the history.
count_proposal-Repeats :
    (p : ZoneSet) (st : TagState) (earlier : List ZoneSet)
    → Repeats st.pending_count st.pending earlier
    → let counted = count_proposal p st in
      Repeats counted.pending_count counted.pending (p ∷ earlier)
unfolding count_proposal
count_proposal-Repeats p st earlier r = elim (Bool-cases (equal p st.committed)) [
  | inl same ↦ rw same tt
  | inr other ↦ rw other (elim (Bool-cases (is_nil st.pending || not (equal p st.pending))) [
    | inl restart ↦ rw restart (refl, tt)
    | inr go_on ↦ rw (go_on, add-one st.pending_count) (ground (arith, equal_iff p st.pending), r)
  ])
]

commit_proposal-Repeats :
    (hysteresis : ℕ) (p : ZoneSet) (st : TagState) (history : List ZoneSet)
    → Repeats st.pending_count st.pending history
    → let after = (commit_proposal hysteresis p st).0 in
      Repeats after.pending_count after.pending history
unfolding commit_proposal
commit_proposal-Repeats hysteresis p st history r =
    elim (leb hysteresis st.pending_count)
      as (λ b.
        let after : TagState × Bool =
          if b
          then (record st { committed = p; pending = nil; pending_count = 0 }, true)
          else (st, false) in
        Repeats after.0.pending_count after.0.pending history) [ true ↦ tt | false ↦ r ]

replay-Repeats :
    (hysteresis : ℕ) (history : List ZoneSet)
    → let st = replay hysteresis history in Repeats st.pending_count st.pending history
unfolding replay observe
replay-Repeats hysteresis [] = tt
replay-Repeats hysteresis (p ∷ earlier) =
    let st = replay hysteresis earlier in
    commit_proposal-Repeats hysteresis p (count_proposal p st) (p ∷ earlier)
      (count_proposal-Repeats p st earlier (replay-Repeats hysteresis earlier))

Repeats-le :
    (m n : ℕ) (z : ZoneSet) (history : List ZoneSet)
    → m ≤ n
    → Repeats n z history
    → Repeats m z history
Repeats-le zero n z history h r = tt
Repeats-le (suc m) zero z history h r = absurd (omega arith)
Repeats-le (suc m) (suc n) z [] h r = r
Repeats-le (suc m) (suc n) z (p ∷ history) h r = (r.0, Repeats-le m n z history (omega arith) r.1)

-- The set that is counted is the proposed one, unless nothing is.
counted_set :
    (p : ZoneSet) (st : TagState)
    → 0 < (count_proposal p st).pending_count
    → elems (count_proposal p st).pending ≡ elems p
unfolding count_proposal
counted_set p st h = ground (arith, equal_iff p st.pending)

-- With a positive hysteresis, whatever the tag went through before: if a proposed set is committed,
-- then this and all of the last `hysteresis` positions proposed it, it is not the set that was
-- committed before, and it is the committed one after.
pub commits_after_run :
    (hysteresis : ℕ) (p : ZoneSet) (earlier : List ZoneSet)
    → 0 < hysteresis
    → (observe hysteresis p (replay hysteresis earlier)).1 ≡ true
    → Repeats hysteresis p (p ∷ earlier)
      × (elems p ≢ elems (replay hysteresis earlier).committed)
      × ((observe hysteresis p (replay hysteresis earlier)).0.committed ≡ p)
unfolding observe commit_proposal
commits_after_run hysteresis p earlier h done =
    let st = replay hysteresis earlier in
    let counted = count_proposal p st in
    let enough : hysteresis ≤ counted.pending_count = ground arith in
    let run = count_proposal-Repeats p st earlier (replay-Repeats hysteresis earlier) in
    (
      Repeats-le hysteresis counted.pending_count p (p ∷ earlier) enough (
          Repeats-subst counted.pending_count counted.pending p (p ∷ earlier)
            (counted_set p st (omega arith)) run),
      unfold count_proposal in ground (arith, equal_iff p st.committed),
      ground arith,
    )
