-- ===== src/Http/Query/Text.antt =====
-- The methods of `str` that the parser uses, over the characters of a text.
use torrust_tracker.Prelude.{
  ℕ, Bool, true, false, not, ◌&&◌, ◌||◌, ◌≡◌, refl, ap, List, [], ◌∷◌, ◌++◌, arith, if◌then◌else◌,
  leb, ◌==◌, all_b,
}
use torrust_tracker.Prelude as Shared

-- `char::is_whitespace`: the Unicode property White_Space.
abbrev pub is_whitespace : ℕ → Bool
is_whitespace c =
    (leb 9 c && leb c 13)
    || (c == 0x20
        || (c == 0x85
            || (c == 0xa0
                || (c == 0x1680
                    || ((leb 0x2000 c && leb c 0x200a)
                        || (c == 0x2028
                            || (c == 0x2029 || (c == 0x202f || (c == 0x205f || c == 0x3000)))))))))

unfoldable pub trim_start : Shared.Text → Shared.Text
trim_start [] = []
trim_start (c ∷ s) = if is_whitespace c then trim_start s else c ∷ s

-- A character in front of what is left of a text after it lost the white space at its end.
abbrev unless_blank : ℕ → Shared.Text → Shared.Text
unless_blank c [] = if is_whitespace c then [] else c ∷ []
unless_blank c (d ∷ s) = c ∷ d ∷ s

unfoldable pub trim_end : Shared.Text → Shared.Text
trim_end [] = []
trim_end (c ∷ s) = unless_blank c (trim_end s)

unfoldable pub trim : Shared.Text → Shared.Text
unfolding trim_start trim_end
trim s = trim_end (trim_start s)

unfoldable pub trim_start_matches : ℕ → Shared.Text → Shared.Text
trim_start_matches p [] = []
trim_start_matches p (c ∷ s) = if c == p then trim_start_matches p s else c ∷ s

abbrev push_front : ℕ → List Shared.Text → List Shared.Text
push_front c [] = (c ∷ []) ∷ []
push_front c (p ∷ ps) = (c ∷ p) ∷ ps

-- `str::split` at every occurrence of a character.
unfoldable pub split : ℕ → Shared.Text → List Shared.Text
split p [] = [] ∷ []
split p (c ∷ s) = let rest = split p s in if c == p then [] ∷ rest else push_front c rest

-- `join` with one character between the parts.
unfoldable pub join : ℕ → List Shared.Text → Shared.Text
join p [] = []
join p (s ∷ []) = s
join p (s ∷ t ∷ ts) = s ++ (p ∷ join p (t ∷ ts))

-- The text does not have the character.
abbrev pub lacks : ℕ → Shared.Text → Bool
lacks p = all_b (λ c. not (c == p))

pub split_none : (p : ℕ) (s : Shared.Text) → lacks p s ≡ true → split p s ≡ s ∷ []
unfolding split
split_none p [] h = refl
split_none p (c ∷ s) h = ground (arith, split_none p s)

pub split-append :
    (p : ℕ) (s t : Shared.Text) → lacks p s ≡ true → split p (s ++ (p ∷ t)) ≡ s ∷ split p t
unfolding split
split-append p [] t h = ground arith
split-append p (c ∷ s) t h = ground (arith, split-append p s t)

pub trim_start_clean :
    (s : Shared.Text) → all_b (λ c. not (is_whitespace c)) s ≡ true → trim_start s ≡ s
unfolding trim_start
trim_start_clean [] h = refl
trim_start_clean (c ∷ s) h = ground arith

pub trim_end_clean :
    (s : Shared.Text) → all_b (λ c. not (is_whitespace c)) s ≡ true → trim_end s ≡ s
unfolding trim_end
trim_end_clean [] h = refl
trim_end_clean (c ∷ s) h = ground (arith, trim_end_clean s)

-- A text without white space is trimmed to itself.
pub trim_clean : (s : Shared.Text) → all_b (λ c. not (is_whitespace c)) s ≡ true → trim s ≡ s
unfolding trim
trim_clean s h = ground (arith, trim_start_clean s h, trim_end_clean s h)
