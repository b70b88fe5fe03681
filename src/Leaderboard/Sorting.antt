-- ===== src/Leaderboard/Sorting.antt =====
-- analytics/leaderboard.rs: the sort of the board keeps the entries and ranks them.
use pagi_digital_twin.Base.{
  Bool, ◌≡◌, refl, ◌∙◌, List, [], ◌∷◌, count_if, All, if◌then◌else◌, arith, Bool-cases, inl, inr,
}
use pagi_digital_twin.Base.Int.{ltb_ℤ, ◌≤ℤ◌}
use pagi_digital_twin.Leaderboard.{AgentLeaderboardEntry, insert_scored, sort_scored}

-- Highest score first.
abbrev pub IsRanked : List AgentLeaderboardEntry → Type 0
IsRanked [] = Unit
IsRanked (e ∷ es) = All (λ f. f.sovereign_score ≤ℤ e.sovereign_score) es × IsRanked es

module _ (P : AgentLeaderboardEntry → Type 0) where
  insert_scored-All :
      (e : AgentLeaderboardEntry) (es : List AgentLeaderboardEntry)
      → P e
      → All P es
      → All P (insert_scored e es)
  unfolding insert_scored
  insert_scored-All e [] p ps = (p, tt)
  insert_scored-All e (f ∷ fs) p ps =
      elim (Bool-cases (ltb_ℤ e.sovereign_score f.sovereign_score)) [
        | inl b ↦ rw (b, if◌then◌else◌) (ps.0, insert_scored-All e fs p ps.1)
        | inr b ↦ rw (b, if◌then◌else◌) (p, ps)
      ]

  pub sort_scored-All : (es : List AgentLeaderboardEntry) → All P es → All P (sort_scored es)
  unfolding sort_scored
  sort_scored-All [] ps = tt
  sort_scored-All (e ∷ es) ps = insert_scored-All e (sort_scored es) ps.0 (sort_scored-All es ps.1)

module _ (p : AgentLeaderboardEntry → Bool) where
  count_if-insert_scored :
      (e : AgentLeaderboardEntry) (es : List AgentLeaderboardEntry)
      → count_if p (insert_scored e es) ≡ count_if p (e ∷ es)
  unfolding insert_scored
  count_if-insert_scored e [] = refl
  count_if-insert_scored e (f ∷ fs) = ground (arith, count_if-insert_scored e fs)

  pub count_if-sort_scored :
      (es : List AgentLeaderboardEntry) → count_if p (sort_scored es) ≡ count_if p es
  unfolding sort_scored
  count_if-sort_scored [] = refl
  count_if-sort_scored (e ∷ es) =
      count_if-insert_scored e (sort_scored es) ∙ ground (arith, count_if-sort_scored es)

scores_below :
    (e f : AgentLeaderboardEntry) (es : List AgentLeaderboardEntry)
    → f.sovereign_score ≤ℤ e.sovereign_score
    → All (λ g. g.sovereign_score ≤ℤ f.sovereign_score) es
    → All (λ g. g.sovereign_score ≤ℤ e.sovereign_score) es
scores_below e f [] le h = tt
scores_below e f (g ∷ gs) le h = (omega (arith, le, h.0), scores_below e f gs le h.1)

insert_scored-IsRanked :
    (e : AgentLeaderboardEntry) (es : List AgentLeaderboardEntry)
    → IsRanked es
    → IsRanked (insert_scored e es)
unfolding insert_scored
insert_scored-IsRanked e [] h = (tt, tt)
insert_scored-IsRanked e (f ∷ fs) h =
    elim (Bool-cases (ltb_ℤ e.sovereign_score f.sovereign_score)) [
      | inl b ↦
          rw (b, if◌then◌else◌)
            (
              insert_scored-All (λ g. g.sovereign_score ≤ℤ f.sovereign_score) e fs
                  (ground (arith, b)) h.0,
              insert_scored-IsRanked e fs h.1,
            )
      | inr b ↦
          rw (b, if◌then◌else◌)
            ((ground (arith, b), scores_below e f fs (ground (arith, b)) h.0), h)
    ]

pub sort_scored-IsRanked : (es : List AgentLeaderboardEntry) → IsRanked (sort_scored es)
unfolding sort_scored
sort_scored-IsRanked [] = tt
sort_scored-IsRanked (e ∷ es) = insert_scored-IsRanked e (sort_scored es) (sort_scored-IsRanked es)
