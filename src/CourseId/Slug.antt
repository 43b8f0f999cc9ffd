-- ===== src/CourseId/Slug.antt =====
-- The accepted identifiers described without the scanner: segments joined by hyphens.
use mathlib.Core.List.{append-nil}
use css360_syllabus_bot.Prelude.{
  ℕ, ◌≡◌, ◌↔◌, ◌≢◌, refl, sym, ap, ◌∙◌, Bool, true, false, String, List, [], ◌∷◌, ◌++◌, any, All,
  arith, codes, ◌==◌, nat_eq, string_eq, eq_iff, Bool-cases, inl, inr,
}
use css360_syllabus_bot.CourseId.{
  is_unsafe, has_dots, starts_with_hyphen, ends_with_hyphen, is_slug_char, matches_pattern,
  is_valid_codes, is_valid_course_id,
}

abbrev pub IsSegment : List ℕ → Type 0
IsSegment [] = ⊥
IsSegment (c ∷ cs) = All (λ d. is_slug_char d ≡ true) (c ∷ cs)

-- "-".join(first :: rest)
abbrev pub join : List ℕ → List (List ℕ) → List ℕ
join segment [] = segment
join segment (next ∷ rest) = segment ++ 0x2d ∷ join next rest

-- The text is one or more non-empty segments of lower-case letters and digits, joined by hyphens.
pub record IsSlug (cs : List ℕ) : Type 0 where
  pub segment : List ℕ
  pub rest : List (List ℕ)
  pub segments : All IsSegment (segment ∷ rest)
  pub joined : cs ≡ join segment rest

-- A slug character is no hyphen and no unsafe character.
slug_char_safe :
    (c : ℕ)
    → is_slug_char c ≡ true
    → (is_unsafe c ≡ false) × ((c == 0x2d) ≡ false) × ((c == 0x2e) ≡ false)
unfolding is_slug_char is_unsafe
slug_char_safe c h = (ground arith, ground arith, ground arith)

hyphen_safe : (c : ℕ) → (c == 0x2d) ≡ true → is_unsafe c ≡ false
unfolding is_unsafe
hyphen_safe c h = ground arith

matches-safe :
    (needed : Bool) (cs : List ℕ) → matches_pattern needed cs ≡ true → any is_unsafe cs ≡ false
unfolding matches_pattern
matches-safe needed [] h = refl
matches-safe needed (c ∷ cs) h = elim (Bool-cases (is_slug_char c)) [
  | inl slug ↦ ground (arith, slug_char_safe c slug, matches-safe false cs)
  | inr other ↦ ground (arith, hyphen_safe c, matches-safe true cs)
]

matches-no_dots :
    (needed : Bool) (cs : List ℕ) → matches_pattern needed cs ≡ true → has_dots cs ≡ false
unfolding matches_pattern has_dots
matches-no_dots needed [] h = refl
matches-no_dots needed (c ∷ []) h = refl
matches-no_dots needed (c ∷ d ∷ cs) h = elim (Bool-cases (is_slug_char c)) [
  | inl slug ↦ ground (arith, slug_char_safe c slug, matches-no_dots false (d ∷ cs))
  | inr other ↦ ground (arith, matches-no_dots true (d ∷ cs))
]

matches-starts : (cs : List ℕ) → matches_pattern true cs ≡ true → starts_with_hyphen cs ≡ false
unfolding matches_pattern starts_with_hyphen
matches-starts [] h = refl
matches-starts (c ∷ cs) h = ground (arith, slug_char_safe c)

matches-ends :
    (needed : Bool) (cs : List ℕ) → matches_pattern needed cs ≡ true → ends_with_hyphen cs ≡ false
unfolding matches_pattern ends_with_hyphen
matches-ends needed [] h = refl
matches-ends needed (c ∷ []) h = ground (arith, slug_char_safe c)
matches-ends needed (c ∷ d ∷ cs) h = elim (Bool-cases (is_slug_char c)) [
  | inl slug ↦ ground (arith, matches-ends false (d ∷ cs))
  | inr other ↦ ground (arith, matches-ends true (d ∷ cs))
]

-- The explicit guards refuse nothing that the pattern accepts.
is_valid_codes_lem : (cs : List ℕ) → is_valid_codes cs ≡ matches_pattern true cs
unfolding is_valid_codes
is_valid_codes_lem cs = elim (Bool-cases (matches_pattern true cs)) [
  | inl m ↦ rw (
    matches-safe true cs m,
    matches-no_dots true cs m,
    matches-starts cs m,
    matches-ends true cs m,
  )
  | inr m ↦ ground arith
]

-- What may follow inside a segment: the rest of it, and further segments.
record IsTail (cs : List ℕ) : Type 0 where
  inner : List ℕ
  after : List (List ℕ)
  slugs : All (λ d. is_slug_char d ≡ true) inner
  others : All IsSegment after
  spelled : cs ≡ join inner after

hyphen_of : (c : ℕ) → (c == 0x2d) ≡ true → c ≡ 0x2d
hyphen_of c h = ground arith

join-cons :
    (c : ℕ) (segment : List ℕ) (rest : List (List ℕ))
    → join (c ∷ segment) rest ≡ c ∷ join segment rest
join-cons c segment [] = refl
join-cons c segment (next ∷ rest) = refl

in_segment : {c : ℕ} {cs : List ℕ} → is_slug_char c ≡ true → IsTail cs → IsTail (c ∷ cs)
in_segment {c} h t = record {
  inner = c ∷ t.inner;
  after = t.after;
  slugs = (h, t.slugs);
  others = t.others;
  spelled = ap (λ l. c ∷ l) t.spelled ∙ sym (join-cons c t.inner t.after);
}

to_slug : {c : ℕ} {cs : List ℕ} → is_slug_char c ≡ true → IsTail cs → IsSlug (c ∷ cs)
to_slug {c} h t = record {
  segment = c ∷ t.inner;
  rest = t.after;
  segments = ((h, t.slugs), t.others);
  joined = ap (λ l. c ∷ l) t.spelled ∙ sym (join-cons c t.inner t.after);
}

to_tail : {c : ℕ} {cs : List ℕ} → (c == 0x2d) ≡ true → IsSlug cs → IsTail (c ∷ cs)
to_tail {c} h s = record {
  inner = [];
  after = s.segment ∷ s.rest;
  slugs = tt;
  others = s.segments;
  spelled = cc (hyphen_of c h, s.joined);
}

scan :
    (cs : List ℕ)
    → (matches_pattern false cs ≡ true → IsTail cs) × (matches_pattern true cs ≡ true → IsSlug cs)
unfolding matches_pattern
scan [] =
    ((λ h. record { inner = []; after = []; slugs = tt; others = tt; spelled = refl }), (λ h. cc))
scan (c ∷ cs) = elim (Bool-cases (is_slug_char c)) [
  | inl slug ↦ rw slug ((λ h. in_segment slug ((scan cs).0 h)), (λ h. to_slug slug ((scan cs).0 h)))
  | inr other ↦ elim (Bool-cases (c == 0x2d)) [
    | inl hyphen ↦ rw (other, hyphen) ((λ h. to_tail hyphen ((scan cs).1 h)), (λ h. cc))
    | inr neither ↦ rw (other, neither) ((λ h. cc), (λ h. cc))
  ]
]

-- Inside a segment the scanner reads on to its end.
matches-segment :
    (cs tail : List ℕ)
    → All (λ d. is_slug_char d ≡ true) cs
    → matches_pattern false (cs ++ tail) ≡ matches_pattern false tail
unfolding matches_pattern
matches-segment [] tail h = refl
matches-segment (c ∷ cs) tail h = rw h.0 (matches-segment cs tail h.1)

matches-hyphen :
    (cs : List ℕ) → matches_pattern true cs ≡ true → matches_pattern false (0x2d ∷ cs) ≡ true
unfolding matches_pattern is_slug_char
matches-hyphen cs h = h

matches-join :
    (segment : List ℕ) (rest : List (List ℕ))
    → All IsSegment (segment ∷ rest)
    → matches_pattern true (join segment rest) ≡ true
unfolding matches_pattern
matches-join [] rest h = absurd h.0
matches-join (c ∷ cs) [] h = rw (h.0.0, ← append-nil cs) (matches-segment cs [] h.0.1)
matches-join (c ∷ cs) (next ∷ rest) h = rw h.0.0 (
    matches-segment cs (0x2d ∷ join next rest) h.0.1
    ∙ matches-hyphen (join next rest) (matches-join next rest h.1))

slug_accepted : (cs : List ℕ) → IsSlug cs → matches_pattern true cs ≡ true
slug_accepted cs s = rw s.joined (matches-join s.segment s.rest s.segments)

no_empty_slug :
    (segment : List ℕ) (rest : List (List ℕ))
    → All IsSegment (segment ∷ rest)
    → [] ≢ join segment rest
no_empty_slug [] rest h = absurd h.0
no_empty_slug (c ∷ cs) [] h = λ e. cc
no_empty_slug (c ∷ cs) (next ∷ rest) h = λ e. cc

empty_no-IsSlug : (course_id : String) → course_id ≡ "" → ¬ IsSlug (codes course_id)
empty_no-IsSlug course_id e s =
    no_empty_slug s.segment s.rest s.segments (sym (ap codes e) ∙ s.joined)

-- A course identifier is accepted exactly when it is one or more non-empty segments of lower-case
-- letters and digits, joined by single hyphens.
pub valid_iff_IsSlug :
    (course_id : String) → (is_valid_course_id course_id ≡ true) ↔ IsSlug (codes course_id)
unfolding is_valid_course_id
valid_iff_IsSlug course_id = elim (Bool-cases (course_id == "")) [
  | inl empty ↦
      rw empty ((λ h. cc), (λ s. absurd (empty_no-IsSlug course_id ((eq_iff _ _).0 empty) s)))
  | inr other ↦
      rw (other, is_valid_codes_lem) ((scan (codes course_id)).1, slug_accepted (codes course_id))
]
