-- ===== src/Serving/Current.antt =====
-- Which session is current, and that a stopped one is not.
use css360_syllabus_bot.Prelude.{
  ℕ, ◌≡◌, ◌∙◌, ap, sym, refl, true, false, String, Option, none, some, List, ltb, leb, string_eq,
  inl, inr, Bool-cases, Option-cases, arith,
}
use css360_syllabus_bot.Table.{select, count, first}
use css360_syllabus_bot.Table.First.{IsOrder, first-select, first-least, select-Elem}
use css360_syllabus_bot.Table.Members.{Elem, Elem-first, Elem-select, count-Elem}
use css360_syllabus_bot.Serving.{
  ServingSession, SessionRecord, is_live, is_serving, started_after, map_serving_session,
  current_serving_session,
}

started_after-IsOrder : IsOrder started_after
started_after-IsOrder = record {
  irreflexive = λ a. ground arith;
  transitive = λ a b c h k. ground arith;
}

-- What it is to be current: nothing where no session serves; else the record of a session of the
-- table that serves at that time, reported live, and no session that serves was started later.
abbrev pub IsCurrent : List ServingSession → ℕ → Option SessionRecord → Type 0
IsCurrent sessions now none = count (is_serving now) sessions ≡ 0
IsCurrent sessions now (some session) =
    (row : ServingSession) × (session ≡ map_serving_session row now)
    × Elem row sessions
    × (is_serving now row ≡ true)
    × (session.live ≡ true)
    × ((other : ServingSession)
        → Elem other sessions
        → is_serving now other ≡ true
        → started_after other row ≡ false)

serving_live :
    (row : ServingSession) (now : ℕ)
    → is_serving now row ≡ true
    → (map_serving_session row now).live ≡ true
unfolding map_serving_session
serving_live row now h =
    let open_still : leb row.expires_at now ≡ false = ground arith in
    let live : is_live row.state ≡ true = ground arith in rw (live, open_still, live) refl

-- The session that is reported current at a time is none exactly where no session serves; else it is
-- one that serves at that time, reported live, and none that serves was started later.
pub newest_session_reported :
    (sessions : List ServingSession) (now : ℕ)
    → IsCurrent sessions now (current_serving_session sessions now)
unfolding current_serving_session
newest_session_reported sessions now = elim (Bool-cases (ltb 0 (count (is_serving now) sessions))) [
  | inl some_serve ↦
      let (row, e, member, serves) =
        first-select started_after (is_serving now) sessions (ground arith) in
      rw e (
        row,
        refl,
        member,
        serves,
        serving_live row now serves,
        λ other inside too.
            first-least started_after (select (is_serving now) sessions) other row
              started_after-IsOrder e (select-Elem (is_serving now) sessions other inside too),
      )
  | inr none_serve ↦ elim (Option-cases (first started_after (select (is_serving now) sessions))) [
    | inl absent ↦ rw absent (ground arith)
    | inr (row, e) ↦
        let (inside, serves) =
          Elem-select (is_serving now) sessions row
            (Elem-first started_after (select (is_serving now) sessions) row e) in
        absurd (ground (arith, count-Elem (is_serving now) sessions row inside serves))
  ]
]

mapped_id :
    (row : ServingSession) (session : SessionRecord) (now : ℕ) (id : String)
    → session ≡ map_serving_session row now
    → session.session_id ≡ id
    → row.session_id ≡ id
unfolding map_serving_session
mapped_id row session now id e same = sym (ap (λ s. s.session_id) e) ∙ same
