-- ===== src/Slug/Unique.antt =====
-- `OnboardingFlow._unique_slug` of src/sample/onboarding/flow.py. The loop has one round for each
-- tenant and one more: a candidate that is free is met by then.
use Prim.Native.Nat.{pred}
use mathlib.Core.Bool.{false≢true}
use mathlib.Core.List.{append_cancel_left, tail-eq_of_cons-eq}
use whatsapp_sales_saas_temp.Dict.{Dict, values}
use whatsapp_sales_saas_temp.Models.{Tenant}
use whatsapp_sales_saas_temp.Prelude.{
  Bool, Bool-cases, List, Option, Text, [], ap, arith, decimal, decimal_injective, eq_iff, false,
  find, if◌then◌else◌, inl, inr, is_some, length, length-append, length-map, length-without-lt, lit,
  ltb, map, mem, mem-without, none, refl, suc, sym, true, without, zero, ℕ, ◌++◌, ◌+◌, ◌<◌, ◌==◌,
  ◌∙◌, ◌∷◌, ◌≡◌, ◌≢◌, ◌≤◌,
}
use whatsapp_sales_saas_temp.Tenant.Repository.{Repository, by_slug}

abbrev pub numbered : Text → ℕ → Text
numbered base suffix = base ++ (lit "-" ++ decimal suffix)

unfoldable pub next_free : ℕ → Text → Text → ℕ → Repository → Text
next_free zero base candidate suffix r = candidate
next_free (suc fuel) base candidate suffix r =
    let rest = next_free fuel base (numbered base suffix) (suffix + 1) r in
    if is_some (by_slug candidate r) then rest else candidate

unfoldable pub unique_slug : Text → Repository → Text
unfolding next_free
unique_slug base r = next_free (length r.by_id + 1) base base 2 r

-- The candidates in the order in which they are tried.
abbrev pub candidate : Text → ℕ → Text
candidate base zero = base
candidate base (suc n) = numbered base (n + 2)

numbered-length : (base : Text) (n : ℕ) → length base < length (numbered base n)
numbered-length base n = omega (arith, length-append base (lit "-" ++ decimal n))

candidate_injective : (base : Text) (m n : ℕ) → candidate base m ≡ candidate base n → m ≡ n
candidate_injective base zero zero e = refl
candidate_injective base zero (suc n) e =
    let q : length base ≡ length (numbered base (n + 2)) = ap length e in
    absurd (omega (arith, q, numbered-length base (n + 2)))
candidate_injective base (suc m) zero e =
    let q : length (numbered base (m + 2)) ≡ length base = ap length e in
    absurd (omega (arith, q, numbered-length base (m + 2)))
candidate_injective base (suc m) (suc n) e =
    let same =
      tail-eq_of_cons-eq
        (append_cancel_left base (lit "-" ++ decimal (m + 2)) (lit "-" ++ decimal (n + 2)) e) in
    let q = decimal_injective (m + 2) (n + 2) same in omega (arith, q)

slugs : Dict Tenant → List Text
slugs d = map (λ e. e.1.slug) d

by_slug-mem :
    (s : Text) (d : Dict Tenant) → is_some (find (λ t. t.slug == s) (values d)) ≡ mem s (slugs d)
unfolding slugs
by_slug-mem s [] = refl
by_slug-mem s (e ∷ d) = ground (arith, by_slug-mem s d)

-- The first of a row of different texts that is not among `xs`.
abbrev FirstFree : (ℕ → Text) → ℕ → List Text → ℕ → Type 0
FirstFree c n xs i = (i < n) × (mem (c i) xs ≡ false) × ((j : ℕ) → j < i → mem (c j) xs ≡ true)

later_taken :
    (c : ℕ → Text) (xs : List Text) (i : ℕ)
    → mem (c 0) xs ≡ true
    → ((j : ℕ) → j < i → mem (c (suc j)) (without (c 0) xs) ≡ true)
    → (j : ℕ) → j < suc i
    → mem (c j) xs ≡ true
later_taken c xs i first h zero l = first
later_taken c xs i first h (suc j) l =
    ground (arith, mem-without (c 0) (c (suc j)) xs, h j (omega arith))

-- Of more than `length xs` different texts one is not among `xs`.
first_free :
    (c : ℕ → Text)
    → ((m n : ℕ) → c m ≡ c n → m ≡ n)
    → (n : ℕ) (xs : List Text) → length xs < n
    → (i : ℕ) × FirstFree c n xs i
first_free c inj zero xs h = absurd (omega arith)
first_free c inj (suc n) xs h = elim (Bool-cases (mem (c 0) xs)) [
  | inl taken ↦
      let shorter = length-without-lt (c 0) xs taken in
      let (i, found) =
        first_free (λ k. c (suc k)) (λ a b e. ap pred (inj (suc a) (suc b) e)) n (without (c 0) xs)
          (omega arith) in
      let ne : c 0 ≢ c (suc i) = λ e. absurd (omega (arith, inj 0 (suc i) e)) in
      (
        suc i,
        (
          omega (arith, found.0),
          ground (arith, found.1, mem-without (c 0) (c (suc i)) xs, eq_iff (c 0) (c (suc i))),
          later_taken c xs i taken found.2,
        ),
      )
  | inr free ↦ (0, (omega arith, free, λ j l. absurd (omega arith)))
]

abbrev taken : Text → Repository → ℕ → Bool
taken base r n = is_some (by_slug (candidate base n) r)

module _ (base : Text) (r : Repository) (i : ℕ) where
  -- The loop stops at the first free candidate, given a round for each one before it.
  next_free-eq :
      (fuel k : ℕ)
      → taken base r i ≡ false
      → ((j : ℕ) → j < i → taken base r j ≡ true)
      → k ≤ i
      → i < k + fuel
      → next_free fuel base (candidate base k) (k + 2) r ≡ candidate base i
  unfolding next_free
  next_free-eq zero k free before low high = absurd (omega arith)
  next_free-eq (suc fuel) k free before low high = elim (Bool-cases (taken base r k)) [
    | inl full ↦
        let ne : k ≢ i = λ e. false≢true (sym free ∙ ap (taken base r) (sym e) ∙ full) in
        let step : suc k + 2 ≡ k + 2 + 1 = omega arith in
        rw full (rw step at (next_free-eq fuel (suc k) free before (omega arith) (omega arith)))
    | inr empty ↦ elim (Bool-cases (ltb k i)) [
      | inl less ↦ absurd (false≢true (sym empty ∙ before k (ground arith)))
      | inr same ↦ let e : k ≡ i = ground arith in rw empty (ap (candidate base) e)
    ]
  ]

taken-mem :
    (base : Text) (r : Repository) (n : ℕ) → taken base r n ≡ mem (candidate base n) (slugs r.by_id)
unfolding by_slug
taken-mem base r n = by_slug-mem (candidate base n) r.by_id

none_of_not-some : {o : Option Tenant} → is_some o ≡ false → o ≡ none
none_of_not-some h = ground arith

-- The loop of `_unique_slug` ends by its own test: the slug that it returns is free, it is the base
-- or the base with a number from 2 on behind a hyphen, and all candidates before it are taken.
pub unique_slug_first :
    (base : Text) (r : Repository)
    → (n : ℕ) × (unique_slug base r ≡ candidate base n)
      × (by_slug (unique_slug base r) r ≡ none)
      × ((m : ℕ) → m < n → is_some (by_slug (candidate base m) r) ≡ true)
unfolding unique_slug
unique_slug_first base r =
    let xs = slugs r.by_id in
    let size : length xs ≡ length r.by_id = unfold slugs in length-map (λ e. e.1.slug) r.by_id in
    let (i, found) =
      first_free (candidate base) (candidate_injective base) (length r.by_id + 1) xs
        (omega (arith, size)) in
    let free = taken-mem base r i ∙ found.1 in
    let before = λ (j : ℕ) (l : j < i). taken-mem base r j ∙ found.2 j l in
    let same =
      next_free-eq base r i (length r.by_id + 1) 0 free before (omega arith)
        (omega (arith, found.0)) in
    (i, same, rw same (none_of_not-some free), before)
