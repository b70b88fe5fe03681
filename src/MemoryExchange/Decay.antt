-- ===== src/MemoryExchange/Decay.antt =====
-- network/memory_exchange.rs: what the hourly task leaves of the counts of topics.
use pagi_digital_twin.Base.{
  Bool, ltb, leb, ◌-◌, ◌*◌, ◌||◌, ◌&&◌, ◌∙◌, ℕ, ◌+◌, ◌≤◌, ◌<◌, String, true, false, List, [], ◌∷◌,
  any, Option, none, some, ◌==◌, ◌≡◌, refl, if◌then◌else◌, arith, eq_iff,
}
use pagi_digital_twin.Base.HashMap
use pagi_digital_twin.Base.HashMap.{HashMap, IsMap, get-remove}
use pagi_digital_twin.Base.Float.{Float}
use pagi_digital_twin.MemoryExchange.{
  TopicFrequency, Service, decayed_count, hours, is_stale, stale_topics, remove_topics,
  decay_topics,
}

abbrev pub unless_stale : Float → ℕ → Option TopicFrequency → Option TopicFrequency
unless_stale fl now none = none
unless_stale fl now (some freq) = if is_stale fl now freq then none else some freq

get-remove_topics :
    (topic : String) (topics : List String) (m : HashMap TopicFrequency)
    → HashMap.get topic (remove_topics topics m)
      ≡ (if any (λ t. t == topic) topics then none else HashMap.get topic m)
unfolding remove_topics
get-remove_topics topic [] m = refl
get-remove_topics topic (t ∷ ts) m =
    ground (arith, get-remove t topic m, get-remove_topics topic ts (HashMap.remove t m))

stale_topics_absent :
    (fl : Float) (now : ℕ) (topic : String) (m : HashMap TopicFrequency)
    → HashMap.get topic m ≡ none
    → any (λ t. t == topic) (stale_topics fl now m) ≡ false
unfolding stale_topics HashMap.get
stale_topics_absent fl now topic [] h = refl
stale_topics_absent fl now topic ((t, freq) ∷ m) h =
    ground (arith, stale_topics_absent fl now topic m)

get-decayed :
    (fl : Float) (now : ℕ) (topic : String) (m : HashMap TopicFrequency)
    → IsMap m
    → (if any (λ t. t == topic) (stale_topics fl now m) then none else HashMap.get topic m)
      ≡ unless_stale fl now (HashMap.get topic m)
unfolding stale_topics HashMap.get
get-decayed fl now topic [] h = refl
get-decayed fl now topic ((t, freq) ∷ m) h =
    ground
      (arith, eq_iff t topic, stale_topics_absent fl now topic m, get-decayed fl now topic m h.1)

-- After a tick, in a table where no topic stands twice, exactly the stale topics are gone and every
-- other is unchanged.
pub decay_topics-get :
    (fl : Float) (now : ℕ) (s : Service) (topic : String)
    → IsMap s.topic_frequencies
    → HashMap.get topic (decay_topics fl now s).topic_frequencies
      ≡ unless_stale fl now (HashMap.get topic s.topic_frequencies)
unfolding decay_topics
decay_topics-get fl now s topic h = ground (
  arith,
  get-remove_topics topic (stale_topics fl now s.topic_frequencies) s.topic_frequencies,
  get-decayed fl now topic s.topic_frequencies h,
)

is_stale_window :
    (fl : Float) (time : ℕ) (freq : TopicFrequency)
    → ((time ≤ freq.last_accessed + hours 12) → is_stale fl time freq ≡ false)
      × ((freq.last_accessed + hours 24 < time) → is_stale fl time freq ≡ true)
unfolding is_stale
is_stale_window fl time freq = (λ h. ground (arith, h), λ h. ground (arith, h))

-- Whatever the arithmetic of the decay: a topic whose last access is at most 12 hours before the tick
-- (or ahead of the clock) keeps its entry, and one idle for more than 24 hours is gone, in a table
-- where no topic stands twice.
pub decay_topics_window :
    (fl : Float) (time : ℕ) (s : Service) (topic : String) (freq : TopicFrequency)
    → IsMap s.topic_frequencies
    → HashMap.get topic s.topic_frequencies ≡ some freq
    → ((time ≤ freq.last_accessed + hours 12)
        → HashMap.get topic (decay_topics fl time s).topic_frequencies ≡ some freq)
      × ((freq.last_accessed + hours 24 < time)
          → HashMap.get topic (decay_topics fl time s).topic_frequencies ≡ none)
decay_topics_window fl time s topic freq m h = (
  λ le. rw (decay_topics-get fl time s topic m, h, (is_stale_window fl time freq).0 le) refl,
  λ lt. rw (decay_topics-get fl time s topic m, h, (is_stale_window fl time freq).1 lt) refl,
)

-- Past so many hours.
abbrev pub idle_over : ℕ → ℕ → TopicFrequency → Bool
idle_over n time freq = ltb (freq.last_accessed + n * 3600 * 1000000000) time

is_stale_lem :
    (fl : Float) (time : ℕ) (freq : TopicFrequency)
    → is_stale fl time freq ≡ (
        idle_over 24 time freq
        || (idle_over 12 time freq
            && leb (decayed_count fl freq.count (time - freq.last_accessed)) 0))
unfolding is_stale
is_stale_lem fl time freq = ground arith

-- In a table where no topic stands twice, a tick removes a topic exactly if it has not been accessed for
-- more than 24 hours, or for more than 12 with a count that the decay over the time since takes to 0; any
-- other entry is left as it was, its count included, and none is added.
pub decay_topics_idle :
    (fl : Float) (time : ℕ) (s : Service) (topic : String)
    → IsMap s.topic_frequencies
    → HashMap.get topic (decay_topics fl time s).topic_frequencies
      ≡ elim (HashMap.get topic s.topic_frequencies) [
        | none ↦ none
        | some freq ↦
            if idle_over 24 time freq
              || (idle_over 12 time freq
                  && leb (decayed_count fl freq.count (time - freq.last_accessed)) 0)
            then none
            else some freq
      ]
decay_topics_idle fl time s topic m =
    decay_topics-get fl time s topic m ∙ by_entry (HashMap.get topic s.topic_frequencies)
  where
    by_entry :
        (o : Option TopicFrequency)
        → unless_stale fl time o ≡ elim o [
          | none ↦ none
          | some freq ↦
              if idle_over 24 time freq
                || (idle_over 12 time freq
                    && leb (decayed_count fl freq.count (time - freq.last_accessed)) 0)
              then none
              else some freq
        ]
    by_entry none = refl
    by_entry (some freq) = rw (is_stale_lem fl time freq) refl
