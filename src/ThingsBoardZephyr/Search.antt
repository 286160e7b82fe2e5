-- ===== src/ThingsBoardZephyr/Search.antt =====
-- `json_extract_string` against a search for the first place of a pattern in a text.
use winegrid_internship.Base.{
  ℕ, zero, suc, ◌-◌, ◌<◌, ◌≤◌, ◌≡◌, refl, sym, arith, if◌then◌else◌, leb, ltb, [], ◌∷◌, Option,
  none, some, Bytes, length, take, drop, starts_with, ltb→lt, leb→le, Bool-cases, inl, inr,
  length-drop,
}
use winegrid_internship.ThingsBoardZephyr.{
  pattern, before_quote, search_pattern, json_extract_string,
}

-- What comes after the first place of `p` in a text, as by `strstr`.
abbrev pub after_first : Bytes → Bytes → Option Bytes
after_first p [] = if starts_with p [] then some [] else none
after_first p (c ∷ cs) =
    if starts_with p (c ∷ cs) then some (drop (length p) (c ∷ cs)) else after_first p cs

-- The value that starts there; a pattern at the very end starts none.
abbrev pub value_of : ℕ → Option Bytes → Option Bytes
value_of out_size none = none
value_of out_size (some []) = none
value_of out_size (some (c ∷ cs)) = some (take (out_size - 1) (before_quote (c ∷ cs)))

drop_all : (n : ℕ) (s : Bytes) → length s ≤ n → drop n s ≡ []
drop_all zero [] h = refl
drop_all (suc n) [] h = refl
drop_all zero (c ∷ s) h = absurd (omega arith)
drop_all (suc n) (c ∷ s) h = drop_all n s (omega arith)

empty_none : (p : Bytes) (out_size : ℕ) → value_of out_size (after_first p []) ≡ none
empty_none p out_size = elim (Bool-cases (starts_with p [])) [
  | inl here ↦ rw here refl
  | inr later ↦ rw later refl
]

-- A text that is not longer than the pattern has no value after it.
short_none :
    (p s : Bytes) (out_size : ℕ) → length s ≤ length p → value_of out_size (after_first p s) ≡ none
short_none p [] out_size l = empty_none p out_size
short_none p (c ∷ cs) out_size l = elim (Bool-cases (starts_with p (c ∷ cs))) [
  | inl here ↦ rw (here, drop_all (length p) (c ∷ cs) l) refl
  | inr later ↦ rw later (short_none p cs out_size (omega arith))
]

value_found :
    (out_size : ℕ) (s : Bytes)
    → 0 < length s
    → value_of out_size (some s) ≡ some (take (out_size - 1) (before_quote s))
value_found out_size [] h = absurd (omega arith)
value_found out_size (c ∷ cs) h = refl

search_pattern_lem :
    (p s : Bytes) (out_size : ℕ) → search_pattern p out_size s ≡ value_of out_size (after_first p s)
unfolding search_pattern
search_pattern_lem p [] out_size = sym (empty_none p out_size)
search_pattern_lem p (c ∷ cs) out_size = elim (Bool-cases (ltb (length p) (length (c ∷ cs)))) [
  | inr short ↦ rw short (sym (short_none p (c ∷ cs) out_size (ground arith)))
  | inl long ↦ elim (Bool-cases (starts_with p (c ∷ cs))) [
    | inl here ↦
        rw (long, here)
          (sym (
            value_found out_size (drop (length p) (c ∷ cs))
              (omega (arith, length-drop (length p) (c ∷ cs), ltb→lt _ _ long))))
    | inr later ↦ rw (long, later) (search_pattern_lem p cs out_size)
  ]
]

-- For a key of at most 35 bytes, `json_extract_string` finds what comes after the first place of
-- `"key":"` in the whole text, up to the next quote or the end of the text and cut to fit the
-- buffer with its NUL, and it fails if that place is at the very end or there is none.
pub json_extract_string-first :
    (json key : Bytes) (out_size : ℕ)
    → length key ≤ 35
    → json_extract_string json key out_size ≡ value_of out_size (after_first (pattern key) json)
unfolding json_extract_string
json_extract_string-first json key out_size short =
    elim (Bool-cases (leb (length json) (length (pattern key)))) [
      | inl guard ↦ rw guard (sym (short_none (pattern key) json out_size (leb→le _ _ guard)))
      | inr passes ↦ rw passes (search_pattern_lem (pattern key) json out_size)
    ]
