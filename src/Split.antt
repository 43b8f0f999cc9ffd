-- ===== src/Split.antt =====
-- backend/app/seed_split.py: the split of one course's records into training and validation.
pub mod Groups
pub mod Parts
pub mod Kept
mod Examples
use Prim.Native.String.{◌++◌ as text_append}
use css360_syllabus_bot.Prelude.{
  ℕ, zero, suc, ◌+◌, ◌-◌, Bool, String, Option, none, some, List, [], ◌∷◌, ◌++◌, ltb, ◌==◌,
  string_eq, nat_eq, if◌then◌else◌, length, ◌⊎◌, inl, inr, FloatOps,
}
use css360_syllabus_bot.Allocation.{take, max_of, min_of}

-- A rendered record: its format, its kind and the rest of its keys.
pub record MixedRecord : Type 0 where
  pub format : Option String
  pub kind : Option String
  pub instruction : String
  pub response : String

abbrev pub text_default : Option String → String → String
text_default none default = default
text_default (some text) default = text

-- f"{format}/{kind}"
abbrev pub group_key : MixedRecord → String
group_key record_of =
    text_append (text_default record_of.format "bare")
      (text_append "/" (text_default record_of.kind "answerable"))

-- What the split raises.
pub data SplitError : Type 0 where
  too_few_examples counts_do_not_add_up : SplitError

-- xs[n:]
unfoldable pub drop {ℓ} : {A : Type ℓ} → ℕ → List A → List A
drop zero xs = xs
drop (suc n) [] = []
drop (suc n) (x ∷ xs) = drop n xs

pub record Group : Type 0 where
  pub key : String
  pub members : List MixedRecord

-- groups.setdefault(key, []).append(record)
unfoldable pub put_in_group : MixedRecord → List Group → List Group
put_in_group r [] = record { key = group_key r; members = r ∷ [] } ∷ []
put_in_group r (group ∷ groups) =
    let rest = put_in_group r groups in
    if group.key == group_key r
    then record group { members = group.members ++ r ∷ [] } ∷ groups
    else group ∷ rest

unfoldable pub grouped_from : List MixedRecord → List Group → List Group
grouped_from [] groups = groups
grouped_from (r ∷ records) groups = grouped_from records (put_in_group r groups)

module _ (F : FloatOps) (shuffle : List MixedRecord → List MixedRecord) where
  abbrev pub validation_size : F.Float → ℕ → ℕ
  validation_size fraction total =
      min_of (max_of 1 (F.ceil (F.times (F.decimal total 0) fraction))) (total - 1)

  unfoldable pub compute_validation_size : F.Float → ℕ → SplitError ⊎ ℕ
  compute_validation_size fraction total =
      if ltb total 2 then inl too_few_examples else inr (validation_size fraction total)

  abbrev pub Split : Type 0
  Split = List MixedRecord × List MixedRecord

  -- The two parts, unless their lengths do not add up.
  abbrev pub checked : ℕ → Split → SplitError ⊎ Split
  checked total (train, validation) =
      if length train + length validation == total
      then inr (train, validation)
      else inl counts_do_not_add_up

  abbrev pub split_at : List MixedRecord → SplitError ⊎ ℕ → SplitError ⊎ Split
  split_at records (inl raised) = inl raised
  split_at records (inr n) =
      checked (length records) (drop n (shuffle records), take n (shuffle records))

  unfoldable pub split_records : F.Float → List MixedRecord → SplitError ⊎ Split
  unfolding compute_validation_size drop take
  split_records fraction records =
      split_at records (compute_validation_size fraction (length records))

  -- train.extend, validation.extend
  abbrev pub extended : SplitError ⊎ Split → SplitError ⊎ Split → SplitError ⊎ Split
  extended (inl raised) rest = inl raised
  extended (inr part) (inl raised) = inl raised
  extended (inr (train, validation)) (inr (more_train, more_validation)) =
      inr (train ++ more_train, validation ++ more_validation)

  -- A lone example trains.
  abbrev pub split_group : F.Float → Group → SplitError ⊎ Split
  split_group fraction group =
      if ltb (length group.members) 2
      then inr (group.members, [])
      else split_records fraction group.members

  unfoldable pub split_groups : F.Float → List Group → SplitError ⊎ Split
  unfolding split_records
  split_groups fraction [] = inr ([], [])
  split_groups fraction (group ∷ groups) =
      extended (split_group fraction group) (split_groups fraction groups)

  abbrev pub shuffled : ℕ → SplitError ⊎ Split → SplitError ⊎ Split
  shuffled total (inl raised) = inl raised
  shuffled total (inr (train, validation)) = checked total (shuffle train, shuffle validation)

  unfoldable pub split_mixed_records : F.Float → List MixedRecord → SplitError ⊎ Split
  unfolding split_groups grouped_from put_in_group
  split_mixed_records fraction records =
      shuffled (length records) (split_groups fraction (grouped_from records []))
