-- ===== src/Allocation/Bounds.antt =====
-- What the passes may hand out: never more than the target, than a fact wants, than a chunk may give.
use css360_syllabus_bot.Prelude.{
  ℕ, zero, suc, ◌+◌, ◌≤◌, ◌≡◌, refl, sym, ap, Bool, true, false, not, if◌then◌else◌, String, Option,
  none, some, List, [], ◌∷◌, ◌++◌, map, ltb, ◌==◌, string_eq, eq_iff, FloatOps, ◌⊎◌, inl, inr,
  Bool-cases, arith, All,
}
use css360_syllabus_bot.Allocation.{max_slots_per_fact, Caps, primary_source_chunk}
use css360_syllabus_bot.Allocation.Desired.{Reason}
use css360_syllabus_bot.Allocation.Passes.{
  Counter, bump_if, CapReason, change_at, Candidate, Allocation, cap_blockers, chunk_blockers,
  is_wanting, scored_by, effective_score,
}
use css360_syllabus_bot.Allocation.Choice.{Best, best_of, is_better, choose_from, with_slot}

module _ (F : FloatOps) where
  unfoldable pub total_slots : List (Candidate F) → ℕ
  total_slots [] = 0
  total_slots (item ∷ items) = item.slot_count + total_slots items

  abbrev pub is_of_chunk : Option String → String → Bool
  is_of_chunk none chunk = false
  is_of_chunk (some key) chunk = chunk == key

  -- The slots of the facts whose primary source is the chunk.
  unfoldable pub chunk_slots : List (Candidate F) → String → ℕ
  chunk_slots [] chunk = 0
  chunk_slots (item ∷ items) chunk =
      let rest = chunk_slots items chunk in
      if is_of_chunk (primary_source_chunk F item.fact) chunk then item.slot_count + rest else rest

  abbrev pub IsModest : Candidate F → Type 0
  IsModest item = (item.slot_count ≤ item.desired_slots) × (item.desired_slots ≤ max_slots_per_fact)

module _ (F : FloatOps) (caps : Caps F) where
  pub record IsWithin (target : ℕ) (a : Allocation F) : Type 0 where
    pub total : total_slots F a.candidates ≡ a.allocated_total
    pub reached : a.allocated_total ≤ target
    pub modest : All (IsModest F) a.candidates
    pub counted : (chunk : String) → chunk_slots F a.candidates chunk ≡ a.chunk_counts chunk
    pub chunks : (chunk : String) → a.chunk_counts chunk ≤ caps.per_source_chunk

  -- The item at the place, as it was scored.
  pub data Sits (score : Candidate F → Option F.Float × Candidate F) (best : Best F)
      : ℕ → List (Candidate F) → Type 0 where
    here :
        (x : Candidate F) (items : List (Candidate F))
        → score x ≡ (some best.score, best.item)
        → Sits score best zero (x ∷ items)
    there :
        (x : Candidate F) (items : List (Candidate F)) (n : ℕ)
        → Sits score best n items
        → Sits score best (suc n) (x ∷ items)

  best_of_one :
      (place : ℕ) (scored : Option F.Float × Candidate F) (so_far : Option (Best F)) (best : Best F)
      → best_of F place scored so_far ≡ some best
      → (so_far ≡ some best) ⊎ ((best.place ≡ place) × (scored ≡ (some best.score, best.item)))
  best_of_one place (none, item) so_far best h = inl h
  best_of_one place (some score, item) so_far best h =
      elim (Bool-cases (is_better F score item so_far)) [
        | inl better ↦
            let e : some (record { place = place; score = score; item = item }) ≡ some best =
              (rw better at h) in
            let whole : ◌≡◌ {A = Best F} (record { place = place; score = score; item = item })
                best =
              cc in
            inr (ap (λ b. b.place) (sym whole), ap (λ b. (some b.score, b.item)) whole)
        | inr worse ↦ inl (rw worse at h)
      ]

  pub chosen-Sits :
      (score : Candidate F → Option F.Float × Candidate F) (place : ℕ) (items : List (Candidate F))
      (so_far : Option (Best F)) (best : Best F)
      → choose_from F place (map score items) so_far ≡ some best
      → (so_far ≡ some best) ⊎ ((n : ℕ) × (best.place ≡ place + n) × Sits score best n items)
  unfolding choose_from
  chosen-Sits score place [] so_far best h = inl h
  chosen-Sits score place (x ∷ items) so_far best h =
      elim (chosen-Sits score (suc place) items (best_of F place (score x) so_far) best h) [
        | inl first ↦ elim (best_of_one place (score x) so_far best first) [
          | inl before ↦ inl before
          | inr (p, e) ↦ inr (zero, rw p (omega arith), here x items e)
        ]
        | inr (n, p, sits) ↦ inr (suc n, rw p (omega arith), there x items n sits)
      ]

  scored_by_free :
      (a : Allocation F) (x : Candidate F) (blockers : List CapReason) (score : F.Float)
      (item : Candidate F)
      → scored_by F caps a x blockers ≡ (some score, item)
      → (item ≡ x) × (blockers ≡ [])
  scored_by_free a x [] score item h = (sym (ap (λ s. s.1) h), refl)
  scored_by_free a x (blocker ∷ blockers) score item h =
      absurd (let none_is : ◌≡◌ {A = Option F.Float} none (some score) = ap (λ s. s.0) h in cc)

  append_nil : (xs ys : List CapReason) → xs ++ ys ≡ [] → xs ≡ []
  append_nil [] ys h = refl
  append_nil (x ∷ xs) ys h = absurd (cc)

  pub effective_wanting :
      (a : Allocation F) (first : Bool) (x : Candidate F) (score : F.Float) (item : Candidate F)
      → effective_score F caps a first x ≡ (some score, item)
      → (item ≡ x)
        × (is_wanting F first x ≡ true)
        × (chunk_blockers F caps a.chunk_counts (primary_source_chunk F x.fact) ≡ [])
  unfolding effective_score cap_blockers
  effective_wanting a first x score item h = elim (Bool-cases (is_wanting F first x)) [
    | inl wanting ↦
        let blockers = cap_blockers F caps a x.fact (ltb 0 x.slot_count) (not first) in
        let (same, free) = scored_by_free a x blockers score item (rw wanting at h) in
        (same, wanting, append_nil _ _ free)
    | inr idle ↦
        let e : ◌≡◌ {A = Option F.Float × Candidate F} (none, x) (some score, item) =
          (rw idle at h) in
        absurd (let none_is : ◌≡◌ {A = Option F.Float} none (some score) = ap (λ s. s.0) e in cc)
  ]

  scored_same :
      (a : Allocation F) (x : Candidate F) (blockers : List CapReason)
      → let item = (scored_by F caps a x blockers).1 in
        (item.slot_count ≡ x.slot_count) × (item.desired_slots ≡ x.desired_slots)
  scored_same a x [] = (refl, refl)
  scored_same a x (blocker ∷ blockers) = (refl, refl)

  -- Looking at an item changes nothing but what it remembers of caps.
  pub looked_same :
      (a : Allocation F) (first : Bool) (x : Candidate F)
      → let item = (effective_score F caps a first x).1 in
        (item.slot_count ≡ x.slot_count) × (item.desired_slots ≡ x.desired_slots)
  unfolding effective_score
  looked_same a first x = elim (Bool-cases (is_wanting F first x)) [
    | inl wanting ↦
        rw wanting (scored_same a x (cap_blockers F caps a x.fact (ltb 0 x.slot_count) (not first)))
    | inr idle ↦ rw idle (refl, refl)
  ]

  unfoldable pub looked : Allocation F → Bool → List (Candidate F) → List (Candidate F)
  looked a first items = map (λ scored. scored.1) (map (effective_score F caps a first) items)

  pub total-looked :
      (a : Allocation F) (first : Bool) (items : List (Candidate F))
      → total_slots F (looked a first items) ≡ total_slots F items
  unfolding total_slots looked
  total-looked a first [] = refl
  total-looked a first (x ∷ items) =
      let (slots, desired) = looked_same a first x in rw (slots, total-looked a first items) refl

  pub All-looked :
      (a : Allocation F) (first : Bool) (items : List (Candidate F))
      → All (IsModest F) items
      → All (IsModest F) (looked a first items)
  unfolding looked
  All-looked a first [] modest = tt
  All-looked a first (x ∷ items) ((fewer, few), modest) =
      let (slots, desired) = looked_same a first x in
      (rw (slots, desired) (fewer, few), All-looked a first items modest)

  wanting_more :
      (first : Bool) (x : Candidate F)
      → is_wanting F first x ≡ true
      → x.slot_count + 1 ≤ x.desired_slots
  unfolding is_wanting
  wanting_more first x h = ground arith

  pub total_given :
      (a : Allocation F) (first : Bool) (reason : Reason) (best : Best F) (n : ℕ)
      (items : List (Candidate F))
      → Sits (effective_score F caps a first) best n items
      → total_slots F (change_at n (with_slot F reason) (looked a first items))
        ≡ suc (total_slots F items)
  unfolding total_slots looked change_at
  total_given a first reason best _ _ (here x items e) =
      let (slots, desired) = looked_same a first x in
      rw (slots, total-looked a first items) (omega arith)
  total_given a first reason best _ _ (there x items n sits) =
      let (slots, desired) = looked_same a first x in
      rw (slots, total_given a first reason best n items sits) (omega arith)

  pub All-given :
      (a : Allocation F) (first : Bool) (reason : Reason) (best : Best F) (n : ℕ)
      (items : List (Candidate F))
      → Sits (effective_score F caps a first) best n items
      → All (IsModest F) items
      → All (IsModest F) (change_at n (with_slot F reason) (looked a first items))
  unfolding looked change_at
  All-given a first reason best _ _ (here x items e) ((fewer, few), modest) =
      let (slots, desired) = looked_same a first x in
      let (same, wanting, free) = effective_wanting a first x best.score best.item e in
      (rw (slots, desired) (wanting_more first x wanting, few), All-looked a first items modest)
  All-given a first reason best _ _ (there x items n sits) ((fewer, few), modest) =
      let (slots, desired) = looked_same a first x in
      (rw (slots, desired) (fewer, few), All-given a first reason best n items sits modest)

  pub chunk_free :
      (a : Allocation F) (first : Bool) (best : Best F) (n : ℕ) (items : List (Candidate F))
      → Sits (effective_score F caps a first) best n items
      → chunk_blockers F caps a.chunk_counts (primary_source_chunk F best.item.fact) ≡ []
  chunk_free a first best _ _ (here x items e) =
      let (same, wanting, free) = effective_wanting a first x best.score best.item e in rw same free
  chunk_free a first best _ _ (there x items n sits) = chunk_free a first best n items sits

  pub bumped_within :
      (counts : Counter) (key : Option String) (chunk : String)
      → ((other : String) → counts other ≤ caps.per_source_chunk)
      → chunk_blockers F caps counts key ≡ []
      → bump_if key counts chunk ≤ caps.per_source_chunk
  bumped_within counts none chunk within free = within chunk
  bumped_within counts (some key) chunk within free = elim (Bool-cases (chunk == key)) [
    | inl same ↦ let e : chunk ≡ key = (eq_iff chunk key).0 same in rw (same, e) (ground arith)
    | inr other ↦ rw other (within chunk)
  ]
