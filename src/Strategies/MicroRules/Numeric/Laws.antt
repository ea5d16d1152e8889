-- ===== src/Strategies/MicroRules/Numeric/Laws.antt =====
-- Laws of the sorts and searches.
use protocol_monitor.Common.{
  ℕ, zero, suc, ◌+◌, ◌≤◌, ◌<◌, ◌≡◌, refl, ◌∙◌, Bool, true, Bool-cases, Option-cases, inl, inr,
  Option, none, some, List, [], ◌∷◌, keep, get_last?, All, ltb, ltb→lt, ltb_false→le, arith,
}
use protocol_monitor.Strategies.MicroRules.Numeric.{insert_sorted, sorted_by, search_down}

module _ {ℓ} {A : Type ℓ} where
  pub keep-keep : (p : A → Bool) (xs : List A) → keep p (keep p xs) ≡ keep p xs
  keep-keep p [] = refl
  keep-keep p (x ∷ xs) = elim (Bool-cases (p x)) [
    | inl e ↦ rw (e, e, keep-keep p xs) refl
    | inr e ↦ rw e (keep-keep p xs)
  ]

  pub All-keep : (p : A → Bool) (xs : List A) → All (λ (x : A). p x ≡ true) (keep p xs)
  All-keep p [] = tt
  All-keep p (x ∷ xs) = elim (Bool-cases (p x)) [
    | inl e ↦ rw e (e, All-keep p xs)
    | inr e ↦ rw e (All-keep p xs)
  ]

module _ {ℓ κ} {A : Type ℓ} (P : A → Type κ) where
  pub All-keep_of : (p : A → Bool) (xs : List A) → All P xs → All P (keep p xs)
  All-keep_of p [] h = tt
  All-keep_of p (x ∷ xs) (h, hs) = elim (Bool-cases (p x)) [
    | inl e ↦ rw e (h, All-keep_of p xs hs)
    | inr e ↦ rw e (All-keep_of p xs hs)
  ]

  All-insert_sorted :
      (before : A → A → Bool) (x : A) (ys : List A)
      → P x
      → All P ys
      → All P (insert_sorted before x ys)
  All-insert_sorted before x [] h hs = (h, tt)
  All-insert_sorted before x (y ∷ ys) h (k, ks) = elim (Bool-cases (before y x)) [
    | inl e ↦ rw e (k, All-insert_sorted before x ys h ks)
    | inr e ↦ rw e (h, (k, ks))
  ]

  pub All-sorted_by : (before : A → A → Bool) (xs : List A) → All P xs → All P (sorted_by before xs)
  All-sorted_by before [] h = tt
  All-sorted_by before (x ∷ xs) (h, hs) =
      All-insert_sorted before x (sorted_by before xs) h (All-sorted_by before xs hs)

  pub All-get_last? : (xs : List A) (x : A) → All P xs → get_last? xs ≡ some x → P x
  All-get_last? [] x h e = absurd (ground arith)
  All-get_last? (y ∷ []) x (h, _) e = ground arith
  All-get_last? (y ∷ z ∷ zs) x (h, hs) e = All-get_last? (z ∷ zs) x hs e

module _ {ℓ} {A : Type ℓ} (f : ℕ → Option A) (low : ℕ) where
  -- Where a search from above ends: at a hit, above which there is none.
  abbrev pub IsFoundAt : ℕ → A → ℕ → Type ℓ
  IsFoundAt n a i =
      (low ≤ i) × (i < low + n) × (f i ≡ some a) × ((j : ℕ) → i < j → j < low + n → f j ≡ none)

  none_above :
      (n i j : ℕ)
      → f (low + n) ≡ none
      → ((j : ℕ) → i < j → j < low + n → f j ≡ none)
      → i < j
      → j < low + suc n
      → f j ≡ none
  none_above n i j e later p q = elim (Bool-cases (ltb j (low + n))) [
    | inl under ↦ later j p (ltb→lt j (low + n) under)
    | inr top ↦ let same : j ≡ low + n = omega (arith, ltb_false→le j (low + n) top) in rw same e
  ]

  pub search_down-IsFoundAt :
      (n : ℕ) (a : A) → search_down f low n ≡ some a → (i : ℕ) × IsFoundAt n a i
  unfolding search_down
  search_down-IsFoundAt zero a h = absurd (ground arith)
  search_down-IsFoundAt (suc n) a h = elim (Option-cases (f (low + n))) [
    | inl e ↦
        let (i, (above, below, hit, later)) =
          search_down-IsFoundAt n a (rw (e, search_down) at h) in
        (i, (above, omega arith, hit, λ j p q. none_above n i j e later p q))
    | inr (b, e) ↦ (
      low + n,
      (omega arith, omega arith, e ∙ (rw (e, search_down) at h), λ j p q. absurd (omega arith)),
    )
  ]
