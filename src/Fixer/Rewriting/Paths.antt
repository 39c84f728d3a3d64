-- ===== src/Fixer/Rewriting/Paths.antt =====
-- The paths and the version of KFCrashReportFixer.c.
use kfcrash.Prelude.{
  ℕ, ◌≤◌, ◌<◌, ◌≡◌, sym, ap, ◌∙◌, ◌↔◌, ◌⊎◌, inl, inr, true, false, Option, none, some, List, [],
  ◌∷◌, arith, ltb, Bool-cases, Bytes, codes, take,
}
use kfcrash.Prelude.Int.{ℤ, pos}
use kfcrash.Json.Codes.{invalid_data}
use kfcrash.Json.Number.{FloatOps}
use kfcrash.Fixer.Dates.{Clock}
use kfcrash.Fixer.Context.{
  Fixup, matches_from, or_else, final_name_of, matches_path, matches_a_path, is_from,
  matches_min_version, should_fix_date,
}
use kfcrash.Fixer.Rewriting.{null_path, on_integer_element, integer_element}

-- At least a version, in the order of its parts.
abbrev pub AtLeast : ℕ → ℕ → ℕ → ℕ → ℕ → ℕ → Type 0
AtLeast x y z major minor patch =
    (major < x) ⊎ ((x ≡ major) × ((minor < y) ⊎ ((y ≡ minor) × (patch ≤ z))))

is_from-AtLeast :
    (x y z major minor patch : ℕ)
    → is_from (record { major = pos x; minor = pos y; patch = pos z }) major minor patch ≡ true
    → AtLeast x y z major minor patch
is_from-AtLeast x y z major minor patch e = elim (Bool-cases (ltb major x)) [
  | inl above' ↦ inl (ground (arith, above'))
  | inr not_above ↦ inr (
    ground (arith, e, not_above),
    elim (Bool-cases (ltb minor y)) [
      | inl above' ↦ inl (ground (arith, above'))
      | inr not_above' ↦
          inr (ground (arith, e, not_above, not_above'), ground (arith, e, not_above, not_above'))
    ],
  )
]

AtLeast-is_from :
    (x y z major minor patch : ℕ)
    → AtLeast x y z major minor patch
    → is_from (record { major = pos x; minor = pos y; patch = pos z }) major minor patch ≡ true
AtLeast-is_from x y z major minor patch (inl h) = ground (arith, h)
AtLeast-is_from x y z major minor patch (inr (e, inl h)) = ground (arith, e, h)
AtLeast-is_from x y z major minor patch (inr (e, inr (e', h))) = ground (arith, e, e', h)

-- For a version of three parts that are not negative, `matchesMinVersion` is the comparison part by
-- part, from the first on.
pub matches_min_version_iff :
    (f : Fixup) (x y z major minor patch : ℕ)
    → f.version ≡ record { major = pos x; minor = pos y; patch = pos z }
    → (matches_min_version f major minor patch ≡ true) ↔ AtLeast x y z major minor patch
unfolding matches_min_version
matches_min_version_iff f x y z major minor patch h =
    let same : matches_min_version f major minor patch
        ≡ is_from (record { major = pos x; minor = pos y; patch = pos z }) major minor patch =
      ap (λ v. is_from v major minor patch) h in
    (
      λ e. is_from-AtLeast x y z major minor patch (sym same ∙ e),
      λ l. same ∙ AtLeast-is_from x y z major minor patch l,
    )

-- The names of the two dates, with the names of the containers below them.
abbrev pub BelowDate : Fixup → List Bytes → Type 0
BelowDate f more =
    (take f.current_depth f.object_path ≡ [] ∷ codes "report" ∷ codes "timestamp" ∷ more)
    ⊎ (take f.current_depth f.object_path
        ≡ [] ∷ codes "recrash_report" ∷ codes "report" ∷ codes "timestamp" ∷ more)

abbrev date_path : List Bytes
date_path = [] ∷ codes "report" ∷ codes "timestamp" ∷ []

abbrev recrash_path : List Bytes
recrash_path = [] ∷ codes "recrash_report" ∷ codes "report" ∷ codes "timestamp" ∷ []

should_fix_date_null :
    (f : Fixup) (name : Option Bytes) (more : List Bytes)
    → BelowDate f more
    → should_fix_date f name ≡ none
unfolding should_fix_date matches_a_path matches_path matches_from
should_fix_date_null f name more (inl h) =
    ap
      (λ names.
        or_else (matches_from names date_path (final_name_of name))
          (or_else (matches_from names recrash_path (final_name_of name)) (some false)))
      h
should_fix_date_null f name more (inr h) =
    ap
      (λ names.
        or_else (matches_from names date_path (final_name_of name))
          (or_else (matches_from names recrash_path (final_name_of name)) (some false)))
      h

-- An integer anywhere in a container that stands where a date of a report belongs, at any depth and
-- under any name, makes the fixer pass NULL to `strncmp`.
pub on_integer_element_null :
    {F : Type 0} (ops : FloatOps F) (clock : Clock) (f : Fixup) (name : Option Bytes) (i : ℤ)
    (more : List Bytes)
    → BelowDate f more
    → on_integer_element ops clock name i f ≡ (invalid_data, null_path)
unfolding on_integer_element integer_element
on_integer_element_null ops clock f name i more h =
    ap (λ o. integer_element ops clock o name i f) (should_fix_date_null f name more h)
