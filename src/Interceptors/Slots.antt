-- ===== src/Interceptors/Slots.antt =====
-- The slots of `Admission` over a sequence of calls that come and end.
use boilerplate_go_grpc_micr.Common.{
  ℕ, suc, ◌+◌, ◌≡◌, ◌≤◌, refl, Bool, true, false, ◌||◌, List, [], ◌∷◌, Bool-cases, inl, inr, arith,
  ltb, ◌==◌, length, if◌then◌else◌,
}
use boilerplate_go_grpc_micr.Common.Int.{ℤ}
use boilerplate_go_grpc_micr.Interceptors.{
  Ruling, exempt, expired, admitted, overloaded, capacity, admission, release,
}

-- A call comes, or one with this number ends: by a result, an error or a panic.
pub data Step : Type 0 where
  arrives : ℕ → Bool → Bool → Step
  ends : ℕ → Step

-- The slots in use after the steps.
unfoldable pub run : ℤ → List Step → List ℕ → List ℕ
run limit [] slots = slots
run limit (arrives id is_health late ∷ steps) slots =
    run limit steps (admission limit id is_health late slots).1
run limit (ends id ∷ steps) slots = run limit steps (release id slots)

-- How many of the calls are admitted, and how many give a slot back.
unfoldable pub is_admitted : Ruling → Bool
is_admitted admitted = true
is_admitted exempt = false
is_admitted expired = false
is_admitted overloaded = false

unfoldable pub admissions : ℤ → List Step → List ℕ → ℕ
admissions limit [] slots = 0
admissions limit (arrives id is_health late ∷ steps) slots =
    let a = admission limit id is_health late slots in
    let rest = admissions limit steps a.1 in if is_admitted a.0 then suc rest else rest
admissions limit (ends id ∷ steps) slots = admissions limit steps (release id slots)

unfoldable pub holds : ℕ → List ℕ → Bool
holds id [] = false
holds id (i ∷ slots) = i == id || holds id slots

unfoldable pub releases : ℤ → List Step → List ℕ → ℕ
releases limit [] slots = 0
releases limit (arrives id is_health late ∷ steps) slots =
    releases limit steps (admission limit id is_health late slots).1
releases limit (ends id ∷ steps) slots =
    let rest = releases limit steps (release id slots) in if holds id slots then suc rest else rest

release-length :
    (id : ℕ) (slots : List ℕ)
    → length slots
      ≡ (if holds id slots then suc (length (release id slots)) else length (release id slots))
unfolding release holds
release-length id [] = refl
release-length id (i ∷ slots) = ground (arith, release-length id slots)

-- What a call does to the slots.
abbrev Admits : ℤ → List ℕ → Ruling × List ℕ → Type 0
Admits limit slots a =
    (length slots ≤ capacity limit → length a.1 ≤ capacity limit)
    × (length a.1 ≡ (if is_admitted a.0 then suc (length slots) else length slots))

admission-Admits :
    (limit : ℤ) (id : ℕ) (is_health late : Bool) (slots : List ℕ)
    → Admits limit slots (admission limit id is_health late slots)
unfolding admission is_admitted
admission-Admits limit id true late slots = (λ h. h, refl)
admission-Admits limit id false true slots = (λ h. h, refl)
admission-Admits limit id false false slots =
    elim (Bool-cases (ltb (length slots) (capacity limit))) [
      | inl b ↦ rw b (λ h. ground arith, refl)
      | inr b ↦ rw b (λ h. h, refl)
    ]

counted_on :
    (b : Bool) (later given held before some_admitted : ℕ)
    → held ≡ (if b then suc before else before)
    → later + given ≡ held + some_admitted
    → later + given ≡ before + (if b then suc some_admitted else some_admitted)
counted_on true later given held before some_admitted h e = omega arith
counted_on false later given held before some_admitted h e = omega arith

freed_on :
    (b : Bool) (later given held before some_admitted : ℕ)
    → before ≡ (if b then suc held else held)
    → later + given ≡ held + some_admitted
    → later + (if b then suc given else given) ≡ before + some_admitted
freed_on true later given held before some_admitted h e = omega arith
freed_on false later given held before some_admitted h e = omega arith

freed_bounded :
    (b : Bool) (held before most : ℕ)
    → before ≡ (if b then suc held else held)
    → before ≤ most
    → held ≤ most
freed_bounded true held before most h k = omega arith
freed_bounded false held before most h k = omega arith

-- However calls come and end, no more of them hold a slot than the limit, or one where the limit is
-- not positive; and no slot is lost: those that are in use are the ones admitted, and in use
-- before, less those given back.
pub run-length :
    (limit : ℤ) (steps : List Step) (slots : List ℕ)
    → length slots ≤ capacity limit
    → (length (run limit steps slots) ≤ capacity limit)
      × (length (run limit steps slots) + releases limit steps slots
          ≡ length slots + admissions limit steps slots)
unfolding run admissions releases
run-length limit [] slots h = (h, refl)
run-length limit (arrives id is_health late ∷ steps) slots h =
    let a = admission limit id is_health late slots in
    let (bounded, counted) = admission-Admits limit id is_health late slots in
    let (below, even) = run-length limit steps a.1 (bounded h) in
    (below, counted_on _ _ _ _ _ _ counted even)
run-length limit (ends id ∷ steps) slots h =
    let freed = release-length id slots in
    let (below, even) = run-length limit steps (release id slots) (freed_bounded _ _ _ _ freed h) in
    (below, freed_on _ _ _ _ _ _ freed even)
