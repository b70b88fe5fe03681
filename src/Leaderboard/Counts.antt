-- ===== src/Leaderboard/Counts.antt =====
-- analytics/leaderboard.rs: what the three queries count.
use pagi_digital_twin.Base.{
  Bool-cases, inl, inr, ℕ, suc, ◌+◌, String, Bool, false, ◌&&◌, ◌||◌, ◌≡◌, refl, List, [], ◌∷◌,
  ◌++◌, Option, none, some, unwrap_or, count_if, any, ◌==◌, if◌then◌else◌, arith, eq_iff,
}
use pagi_digital_twin.Base.HashMap
use pagi_digital_twin.Base.HashMap.{HashMap, IsMap, get-insert, insert-IsMap}
use pagi_digital_twin.Quarantine.{Payload, get_str}
use pagi_digital_twin.Leaderboard.{
  Scroll, broken, last, next, Commit, bump, count_point, count_points, count_pages, is_playbook,
  author_of, count_commits,
}

abbrev pub get_count : String → HashMap ℕ → ℕ
get_count k m = unwrap_or (HashMap.get k m) 0

abbrev is_text : String → Option String → Bool
is_text a none = false
is_text a (some b) = b == a

-- The point names the agent.
abbrev pub names : String → Payload → Bool
names a p = is_text a (get_str p "agent_id")

-- The commit is a playbook commit of the agent.
abbrev pub playbook_by : String → Commit → Bool
playbook_by a c = is_playbook c && author_of c == a

-- The points that the loop over the pages reads.
abbrev pub read_points : Scroll → List Payload
read_points broken = []
read_points (last ps) = ps
read_points (next [] rest) = []
read_points (next (p ∷ ps) rest) = p ∷ ps ++ read_points rest

-- A key is present if it was or if some element bumps it, and its count grows by each that does.
pub record Grows {A : Type 0} (test : String → A → Bool) (xs : List A) (m m' : HashMap ℕ)
    : Type 0 where
  pub counts : (a : String) → get_count a m' ≡ get_count a m + count_if (test a) xs
  pub keys :
      (a : String) → HashMap.contains_key a m' ≡ (HashMap.contains_key a m || any (test a) xs)
  pub distinct : IsMap m → IsMap m'

get_count-bump :
    (k a : String) (m : HashMap ℕ)
    → get_count a (bump k m) ≡ (if k == a then suc (get_count a m) else get_count a m)
unfolding bump
get_count-bump k a m = rw get-insert (ground (arith, eq_iff k a))

contains_key-bump :
    (k a : String) (m : HashMap ℕ)
    → HashMap.contains_key a (bump k m) ≡ (HashMap.contains_key a m || k == a)
unfolding bump
contains_key-bump k a m = rw get-insert (ground arith)

bump-IsMap : (k : String) (m : HashMap ℕ) → IsMap m → IsMap (bump k m)
unfolding bump
bump-IsMap k m h = insert-IsMap k _ m h

count_if-append :
    {A : Type 0} (p : A → Bool) (xs ys : List A)
    → count_if p (xs ++ ys) ≡ count_if p xs + count_if p ys
count_if-append p [] ys = omega arith
count_if-append p (x ∷ xs) ys = ground (arith, count_if-append p xs ys)

any-append :
    {A : Type 0} (p : A → Bool) (xs ys : List A) → any p (xs ++ ys) ≡ (any p xs || any p ys)
any-append p [] ys = refl
any-append p (x ∷ xs) ys = ground (arith, any-append p xs ys)

module _ {A : Type 0} (test : String → A → Bool) where
  Grows-append :
      (xs ys : List A) (m m' m'' : HashMap ℕ)
      → Grows test xs m m'
      → Grows test ys m' m''
      → Grows test (xs ++ ys) m m''
  Grows-append xs ys m m' m'' g h = record {
    counts = λ a. omega (arith, g.counts a, h.counts a, count_if-append (test a) xs ys);
    keys = λ a. ground (arith, g.keys a, h.keys a, any-append (test a) xs ys);
    distinct = λ d. h.distinct (g.distinct d);
  }

  Grows-none : (m : HashMap ℕ) → Grows test [] m m
  Grows-none m = record { counts = λ a. omega arith; keys = λ a. ground arith; distinct = λ d. d }

  count_point-Grows :
      (x : A) (m : HashMap ℕ) (k : Option String)
      → ((a : String) → test a x ≡ is_text a k)
      → Grows test (x ∷ []) m (count_point m k)
  unfolding count_point
  count_point-Grows x m none same = record {
    counts = λ a. ground (arith, same a);
    keys = λ a. ground (arith, same a);
    distinct = λ d. d;
  }
  count_point-Grows x m (some k) same = record {
    counts = λ a. ground (arith, same a, get_count-bump k a m);
    keys = λ a. ground (arith, same a, contains_key-bump k a m);
    distinct = bump-IsMap k m;
  }

pub count_points-Grows : (ps : List Payload) (m : HashMap ℕ) → Grows names ps m (count_points m ps)
unfolding count_points
count_points-Grows [] m = Grows-none names m
count_points-Grows (p ∷ ps) m =
    Grows-append names (p ∷ []) ps m (count_point m (get_str p "agent_id")) _
      (count_point-Grows names p m (get_str p "agent_id") (λ a. refl))
      (count_points-Grows ps (count_point m (get_str p "agent_id")))

pub count_pages-Grows :
    (s : Scroll) (m : HashMap ℕ) → Grows names (read_points s) m (count_pages m s)
unfolding count_pages
count_pages-Grows broken m = Grows-none names m
count_pages-Grows (last ps) m = count_points-Grows ps m
count_pages-Grows (next [] rest) m = Grows-none names m
count_pages-Grows (next (p ∷ ps) rest) m =
    Grows-append names (p ∷ ps) (read_points rest) m (count_points m (p ∷ ps)) _
      (count_points-Grows (p ∷ ps) m) (count_pages-Grows rest (count_points m (p ∷ ps)))

commit-Grows :
    (c : Commit) (m : HashMap ℕ)
    → Grows playbook_by (c ∷ []) m (if is_playbook c then bump (author_of c) m else m)
unfolding count_point
commit-Grows c m = elim (Bool-cases (is_playbook c)) [
  | inl e ↦
      rw (e, if◌then◌else◌)
        (count_point-Grows playbook_by c m (some (author_of c)) (λ a. rw e refl))
  | inr e ↦ rw (e, if◌then◌else◌) (count_point-Grows playbook_by c m none (λ a. rw e refl))
]

pub count_commits-Grows :
    (cs : List Commit) (m : HashMap ℕ) → Grows playbook_by cs m (count_commits m cs)
unfolding count_commits
count_commits-Grows [] m = Grows-none playbook_by m
count_commits-Grows (c ∷ cs) m =
    Grows-append playbook_by (c ∷ []) cs m (if is_playbook c then bump (author_of c) m else m) _
      (commit-Grows c m)
      (count_commits-Grows cs (if is_playbook c then bump (author_of c) m else m))
