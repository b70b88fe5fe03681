-- ===== src/Base/Text.antt =====
-- `str` as Rust reads it: white space, trimming and splitting at it, over the characters.
use Prim.Native.Nat.{ℕ}
use Prim.Native.Char.{Char, code}
use Prim.Native.String.{String}
use mathlib.Core.Bool.{Bool, false, ◌&&◌, ◌||◌}
use mathlib.Core.List.{List, [], ◌∷◌}
use mathlib.Core.Path.{◌≡◌, refl}
use package.pagi_digital_twin.Base.Tests.{leb, if◌then◌else◌}
use package.pagi_digital_twin.Base.Lists.{All}
use package.pagi_digital_twin.Base.Tests.{Bool-cases}
use native.Mathlib.Omega.{arith}
use mathlib.Core.Logic.{inl, inr}

abbrev within : ℕ → ℕ → ℕ → Bool
within a b c = leb a c && leb c b

-- `char::is_whitespace`: the Unicode property White_Space.
unfoldable pub is_whitespace : Char → Bool
is_whitespace c =
    within 9 13 (code c)
    || within 32 32 (code c)
    || within 133 133 (code c)
    || within 160 160 (code c)
    || within 5760 5760 (code c)
    || within 8192 8202 (code c)
    || within 8232 8233 (code c)
    || within 8239 8239 (code c)
    || within 8287 8287 (code c)
    || within 12288 12288 (code c)

unfoldable pub trim_start : String → String
trim_start String.[] = String.[]
trim_start (String.◌∷◌ c s) =
    let rest = trim_start s in if is_whitespace c then rest else String.◌∷◌ c s

abbrev pub end_at : Char → String → String
end_at c String.[] = if is_whitespace c then String.[] else String.◌∷◌ c String.[]
end_at c (String.◌∷◌ d s) = String.◌∷◌ c (String.◌∷◌ d s)

unfoldable pub trim_end : String → String
trim_end String.[] = String.[]
trim_end (String.◌∷◌ c s) = end_at c (trim_end s)

unfoldable pub trim : String → String
trim s = trim_end (trim_start s)

-- The word at the front, if there is one, put before the others.
abbrev pub flush : String × List String → List String
flush (String.[], words) = words
flush (String.◌∷◌ c s, words) = String.◌∷◌ c s ∷ words

unfoldable pub split_front : String → String × List String
split_front String.[] = (String.[], [])
split_front (String.◌∷◌ c s) =
    let rest = split_front s in
    if is_whitespace c then (String.[], flush rest) else (String.◌∷◌ c rest.0, rest.1)

unfoldable pub split_whitespace : String → List String
split_whitespace s = flush (split_front s)

-- Every character of the text is one of these.
abbrev pub Chars : (Char → Type 0) → String → Type 0
Chars P String.[] = Unit
Chars P (String.◌∷◌ c s) = P c × Chars P s

abbrev pub any_char : (Char → Bool) → String → Bool
any_char p String.[] = false
any_char p (String.◌∷◌ c s) = p c || any_char p s

-- A word has a character, and none of them is white space.
abbrev pub IsWord : String → Type 0
IsWord String.[] = ⊥
IsWord (String.◌∷◌ c s) = (is_whitespace c ≡ false) × (any_char is_whitespace s ≡ false)

flush-IsWord :
    (w : String) (ws : List String)
    → any_char is_whitespace w ≡ false
    → All IsWord ws
    → All IsWord (flush (w, ws))
flush-IsWord String.[] ws h hs = hs
flush-IsWord (String.◌∷◌ c s) ws h hs = ((ground (arith, h), ground (arith, h)), hs)

-- What `split_front` gives holds words, after a front without white space.
split_front-IsWord :
    (s : String) → (any_char is_whitespace (split_front s).0 ≡ false) × All IsWord (split_front s).1
unfolding split_front
split_front-IsWord String.[] = (refl, tt)
split_front-IsWord (String.◌∷◌ c s) = elim (Bool-cases (is_whitespace c)) [
  | inl b ↦
      rw (b, if◌then◌else◌)
        (
          refl,
          flush-IsWord (split_front s).0 (split_front s).1 (split_front-IsWord s).0
              (split_front-IsWord s).1,
        )
  | inr b ↦
      rw (b, if◌then◌else◌) (ground (arith, b, (split_front-IsWord s).0), (split_front-IsWord s).1)
]

-- The words of a text are not empty and have no white space.
pub split_whitespace-IsWord : (s : String) → All IsWord (split_whitespace s)
unfolding split_whitespace
split_whitespace-IsWord s =
    flush-IsWord (split_front s).0 (split_front s).1 (split_front-IsWord s).0
      (split_front-IsWord s).1

module _ (p : Char → Bool) where
  flush_without :
      (w : String) (ws : List String)
      → any_char p w ≡ false
      → All (λ v. any_char p v ≡ false) ws
      → All (λ v. any_char p v ≡ false) (flush (w, ws))
  flush_without String.[] ws h hs = hs
  flush_without (String.◌∷◌ c s) ws h hs = (h, hs)

  split_front_without :
      (s : String)
      → any_char p s ≡ false
      → (any_char p (split_front s).0 ≡ false) × All (λ v. any_char p v ≡ false) (split_front s).1
  unfolding split_front
  split_front_without String.[] h = (refl, tt)
  split_front_without (String.◌∷◌ c s) h =
      let rest = split_front_without s (ground (arith, h)) in
      elim (Bool-cases (is_whitespace c)) [
        | inl b ↦
            rw (b, if◌then◌else◌)
              (refl, flush_without (split_front s).0 (split_front s).1 rest.0 rest.1)
        | inr b ↦ rw (b, if◌then◌else◌) (ground (arith, h, rest.0), rest.1)
      ]

  -- Characters that the text lacks are in none of its words.
  pub split_whitespace_without :
      (s : String) → any_char p s ≡ false → All (λ v. any_char p v ≡ false) (split_whitespace s)
  unfolding split_whitespace
  split_whitespace_without s h =
      let parts = split_front_without s h in
      flush_without (split_front s).0 (split_front s).1 parts.0 parts.1
