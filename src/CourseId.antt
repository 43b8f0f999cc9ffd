-- ===== src/CourseId.antt =====
-- backend/app/course_id.py: which course identifiers are accepted.
pub mod Slug
pub mod Examples
use css360_syllabus_bot.Prelude.{
  ℕ, Bool, true, false, String, List, [], ◌∷◌, ◌&&◌, ◌||◌, not, any, leb, codes, ◌==◌, nat_eq,
  string_eq, if◌then◌else◌,
}

-- UNSAFE_COURSE_ID_CHARS, [./\\[\]$]
unfoldable pub is_unsafe : ℕ → Bool
is_unsafe c = c == 0x2e || c == 0x2f || c == 0x5c || c == 0x5b || c == 0x5d || c == 0x24

-- ".." in course_id
unfoldable pub has_dots : List ℕ → Bool
has_dots [] = false
has_dots (c ∷ []) = false
has_dots (c ∷ d ∷ cs) = (c == 0x2e && d == 0x2e) || has_dots (d ∷ cs)

-- course_id.startswith("-")
unfoldable pub starts_with_hyphen : List ℕ → Bool
starts_with_hyphen [] = false
starts_with_hyphen (c ∷ cs) = c == 0x2d

-- course_id.endswith("-")
unfoldable pub ends_with_hyphen : List ℕ → Bool
ends_with_hyphen [] = false
ends_with_hyphen (c ∷ []) = c == 0x2d
ends_with_hyphen (c ∷ d ∷ cs) = ends_with_hyphen (d ∷ cs)

-- [a-z0-9]
unfoldable pub is_slug_char : ℕ → Bool
is_slug_char c = (leb b'a' c && leb c b'z') || (leb b'0' c && leb c b'9')

-- COURSE_ID_PATTERN.fullmatch: `needed` says that a segment has just begun.
unfoldable pub matches_pattern : Bool → List ℕ → Bool
matches_pattern needed [] = not needed
matches_pattern needed (c ∷ cs) =
    let inside = matches_pattern false cs in
    let next = matches_pattern true cs in
    if is_slug_char c then inside else if c == 0x2d && not needed then next else false

unfoldable pub is_valid_codes : List ℕ → Bool
unfolding is_unsafe has_dots starts_with_hyphen ends_with_hyphen matches_pattern is_slug_char
is_valid_codes cs =
    if any is_unsafe cs || has_dots cs
    then false
    else if starts_with_hyphen cs || ends_with_hyphen cs
    then false
    else matches_pattern true cs

unfoldable pub is_valid_course_id : String → Bool
unfolding is_valid_codes
is_valid_course_id course_id = if course_id == "" then false else is_valid_codes (codes course_id)
