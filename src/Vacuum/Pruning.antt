-- ===== src/Vacuum/Pruning.antt =====
-- memory/vacuum.rs: which points a pruning deletes.
use pagi_digital_twin.Base.{
  ◌&&◌, not, ◌==◌, unwrap_or, eq_iff, ◌⊎◌, ◌≢◌, ◌↔◌, true, false, inr, inl, Bool-cases, ℕ, ◌+◌,
  String, Bool, List, [], ◌∷◌, ◌++◌, length, length-append, Option, none, some, ltb, ◌≡◌, refl, sym,
  ap, ◌∙◌, if◌then◌else◌, arith,
}
use pagi_digital_twin.Base.Results.{ok}
use pagi_digital_twin.Base.Float.{Float}
use pagi_digital_twin.Base.Int.{ℤ, ltb_ℤ}
use pagi_digital_twin.Values.{Payload, get_text}
use pagi_digital_twin.Vacuum.{
  before, parsed, is_old, should_preserve, importance_score, prune_collection, prune_pages, Reading,
  PruningConfig, Point, doomed, id_of, points_to_delete, Scrolls, broken, page, batch, Pruned,
  after_delete, prune_page,
}
use mathlib.Core.List.{append_assoc}

-- The points of the pages that the loop reads.
abbrev pub pages_read : Scrolls → List Point
pages_read (broken e) = []
pages_read (page [] refused scrolls) = []
pages_read (page (p ∷ ps) refused scrolls) =
    let rest = pages_read scrolls in
    if ltb (length (p ∷ ps)) batch then p ∷ ps else (p ∷ ps) ++ rest

module _ (fl : Float) (r : Reading) (c : PruningConfig) where
  points_to_delete-append :
      (ps qs : List Point)
      → points_to_delete fl r c (ps ++ qs)
        ≡ points_to_delete fl r c ps ++ points_to_delete fl r c qs
  unfolding points_to_delete
  points_to_delete-append [] qs = refl
  points_to_delete-append (p ∷ ps) qs =
      ap (λ l. id_of (doomed fl r c p.payload) p.id ++ l) (points_to_delete-append ps qs)
      ∙ sym (
          append_assoc (id_of (doomed fl r c p.payload) p.id) (points_to_delete fl r c ps)
            (points_to_delete fl r c qs))

-- One page: if the rest of the loop deletes `more` and counts them, so does the page with its own.
prune_page_lem :
    (is_last : Bool) (total n : ℕ) (ids more : List String) (refused : Option String)
    (rest : Pruned)
    → (rest.0 ≡ ok n → (rest.1 ≡ more) × (n ≡ total + length ids + length more))
    → (prune_page is_last total ids refused rest).0 ≡ ok n
    → ((prune_page is_last total ids refused rest).1 ≡ (if is_last then ids else ids ++ more))
      × (n ≡ total + length (if is_last then ids else ids ++ more))
unfolding prune_page after_delete
prune_page_lem is_last total n [] more refused rest h e = ground (arith, h, e)
prune_page_lem is_last total n (id ∷ ids) more (some x) rest h e = cc
prune_page_lem is_last total n (id ∷ ids) more none rest h e =
    ground (arith, h, e, length-append ids more)

module _ (fl : Float) (r : Reading) (c : PruningConfig) where
  points_to_delete_read :
      (p : Point) (ps more : List Point)
      → points_to_delete fl r c (if ltb (length (p ∷ ps)) batch then p ∷ ps else (p ∷ ps) ++ more)
        ≡ (if ltb (length (p ∷ ps)) batch
            then points_to_delete fl r c (p ∷ ps)
            else points_to_delete fl r c (p ∷ ps) ++ points_to_delete fl r c more)
  points_to_delete_read p ps more = elim (Bool-cases (ltb (length (p ∷ ps)) batch)) [
    | inl b ↦ rw (b, if◌then◌else◌) refl
    | inr b ↦ rw (b, if◌then◌else◌) (points_to_delete-append fl r c (p ∷ ps) more)
  ]

  prune_pages_lem :
      (total n : ℕ) (scrolls : Scrolls)
      → (prune_pages fl r c total scrolls).0 ≡ ok n
      → ((prune_pages fl r c total scrolls).1 ≡ points_to_delete fl r c (pages_read scrolls))
        × (n ≡ total + length (points_to_delete fl r c (pages_read scrolls)))
  unfolding prune_pages points_to_delete
  prune_pages_lem total n (broken e) h = cc
  prune_pages_lem total n (page [] refused scrolls) h = ground (arith, h)
  prune_pages_lem total n (page (p ∷ ps) refused scrolls) h =
      let ids = points_to_delete fl r c (p ∷ ps) in
      let more = points_to_delete fl r c (pages_read scrolls) in
      let rest = prune_pages fl r c (total + length ids) scrolls in
      let done =
        prune_page_lem (ltb (length (p ∷ ps)) batch) total n ids more refused rest
          (prune_pages_lem (total + length ids) n scrolls) h in
      rw (points_to_delete_read p ps (pages_read scrolls)) done

prune_collection-points_to_delete :
    (fl : Float) (r : Reading) (c : PruningConfig) (n : ℕ) (scrolls : Scrolls)
    → (prune_collection fl r c scrolls).0 ≡ ok n
    → ((prune_collection fl r c scrolls).1 ≡ points_to_delete fl r c (pages_read scrolls))
      × (n ≡ length (points_to_delete fl r c (pages_read scrolls)))
unfolding prune_collection
prune_collection-points_to_delete fl r c n scrolls h =
    let done = prune_pages_lem fl r c 0 n scrolls h in (done.0, omega (arith, done.1))

both_true : (p q : Bool) → (p && q) ≡ true → (p ≡ true) × (q ≡ true)
both_true p q h = ground arith

either_false : {A : Type 0} (p q : Bool) → ((q ≡ false) ↔ A) → not (p && q) ≡ true → (p ≡ false) ⊎ A
either_false false q i h = inl refl
either_false true false i h = inr (i.0 refl)
either_false true true i h = cc

neither : {A : Type 0} (p q : Bool) → ((q ≡ false) ↔ A) → (p ≡ false) ⊎ A → not (p && q) ≡ true
neither false q i h = refl
neither true false i h = refl
neither true true i (inl e) = cc
neither true true i (inr a) = cc (i.1 a)

module _ (fl : Float) (r : Reading) (c : PruningConfig) where
  -- The timestamp can be read and lies before the cutoff, and the point is not at once of an
  -- importance over the threshold and essential.
  pub record IsDoomed (payload : Payload) : Type 0 where
    pub text : String
    pub time : ℤ
    pub stamped : get_text payload "timestamp" ≡ some text
    pub readable : r.parse_from_rfc3339 text ≡ some time
    pub old : ltb_ℤ time c.cutoff_time ≡ true
    pub unprotected :
        (fl.lt c.importance_threshold (importance_score fl r payload) ≡ false)
        ⊎ (get_text payload "status" ≢ some "essential")

  -- The identifiers of the list are, in order, those of the doomed points of the list that have one.
  pub data Deletes : List Point → List String → Type 0 where
    at_end : Deletes [] []
    deletes :
        {ps : List Point} {ids : List String} (p : Point) (id : String)
        → p.id ≡ some id
        → IsDoomed p.payload
        → Deletes ps ids
        → Deletes (p ∷ ps) (id ∷ ids)
    spares :
        {ps : List Point} {ids : List String} (p : Point)
        → (p.id ≡ none) ⊎ (IsDoomed p.payload → ⊥)
        → Deletes ps ids
        → Deletes (p ∷ ps) ids

  old_lem :
      (o : Option String)
      → before c.cutoff_time (parsed r o) ≡ true
      → (text : String) × (time : ℤ) × (o ≡ some text)
        × (r.parse_from_rfc3339 text ≡ some time)
        × (ltb_ℤ time c.cutoff_time ≡ true)
  old_lem none h = cc
  old_lem (some text) h = by_time (r.parse_from_rfc3339 text) refl h
    where
      by_time :
          (t : Option ℤ)
          → r.parse_from_rfc3339 text ≡ t
          → before c.cutoff_time t ≡ true
          → (text' : String) × (time : ℤ) × (some text ≡ some text')
            × (r.parse_from_rfc3339 text' ≡ some time)
            × (ltb_ℤ time c.cutoff_time ≡ true)
      by_time none e k = cc
      by_time (some time) e k = (text, time, refl, e, k)

  status_iff :
      (o : Option String) → ((unwrap_or o "" == "essential") ≡ false) ↔ (o ≢ some "essential")
  status_iff none = (λ e q. cc, λ q. refl)
  status_iff (some t) = ground (arith, eq_iff t "essential")

  doomed_iff : (payload : Payload) → (doomed fl r c payload ≡ true) ↔ IsDoomed payload
  unfolding is_old should_preserve
  doomed_iff payload = (
    λ h.
        let (is_old', free) =
          both_true (before c.cutoff_time (parsed r (get_text payload "timestamp"))) _ h in
        let (text, time, stamped, readable, old) = old_lem (get_text payload "timestamp") is_old' in
        record {
          text = text;
          time = time;
          stamped = stamped;
          readable = readable;
          old = old;
          unprotected =
              either_false (fl.lt c.importance_threshold (importance_score fl r payload)) _
                (status_iff (get_text payload "status")) free;
        },
    λ d.
        rw (d.stamped, parsed)
          (rw (d.readable, before)
            (rw d.old (
              neither (fl.lt c.importance_threshold (importance_score fl r payload)) _
                (status_iff (get_text payload "status")) d.unprotected))),
  )

  by_point :
      (p : Point) (ps : List Point) (ids : List String) (o : Option String) (b : Bool)
      → p.id ≡ o
      → doomed fl r c p.payload ≡ b
      → Deletes ps ids
      → Deletes (p ∷ ps) (id_of b o ++ ids)
  by_point p ps ids none true e d rest = spares p (inl e) rest
  by_point p ps ids none false e d rest = spares p (inl e) rest
  by_point p ps ids (some id) true e d rest = deletes p id e ((doomed_iff p.payload).0 d) rest
  by_point p ps ids (some id) false e d rest =
      spares p (inr (λ doom. cc (d, (doomed_iff p.payload).1 doom))) rest

  points_to_delete-Deletes : (ps : List Point) → Deletes ps (points_to_delete fl r c ps)
  unfolding points_to_delete
  points_to_delete-Deletes [] = at_end
  points_to_delete-Deletes (p ∷ ps) =
      by_point p ps (points_to_delete fl r c ps) p.id (doomed fl r c p.payload) refl refl
        (points_to_delete-Deletes ps)

-- A pruning that reports success has deleted, of the points of the pages that it has read, exactly
-- those that have an identifier and a timestamp that can be read and lies before the cutoff, and that
-- are not at once of an importance over the threshold and of the status "essential", in order; and it
-- reports how many.
pub prune_collection-Deletes :
    (fl : Float) (r : Reading) (c : PruningConfig) (n : ℕ) (scrolls : Scrolls)
    → (prune_collection fl r c scrolls).0 ≡ ok n
    → Deletes fl r c (pages_read scrolls) (prune_collection fl r c scrolls).1
      × (n ≡ length (prune_collection fl r c scrolls).1)
prune_collection-Deletes fl r c n scrolls h =
    let (same, count) = prune_collection-points_to_delete fl r c n scrolls h in
    (rw same (points_to_delete-Deletes fl r c (pages_read scrolls)), count ∙ ap length (sym same))
