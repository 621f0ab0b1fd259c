-- ===== src/Worker/Writer/Split.antt =====
-- src-tauri/src/database_worker.rs: the request to clear the logs parts the queue into the logs
-- before it and those after it.
use proxy_load.Base.{
  ◌<◌, subst, ℕ, zero, suc, ◌-◌, ◌≤◌, ◌≡◌, refl, Bool, true, false, not, ◌&&◌, List, [], ◌∷◌, ◌++◌,
  arith, length, remove_at, drop, take, all, nat_eq, keep,
}

module _ {ℓ} {A : Type ℓ} (P : A → Bool) where
  pub all-join : (xs ys : List A) → all P xs ≡ true → all P ys ≡ true → all P (xs ++ ys) ≡ true
  all-join [] ys h e = e
  all-join (y ∷ xs) ys h e = ground (arith, h, e, all-join xs ys)

  pub all-remove_at : (i : ℕ) (xs : List A) → all P xs ≡ true → all P (remove_at i xs) ≡ true
  unfolding remove_at
  all-remove_at i [] h = h
  all-remove_at zero (x ∷ xs) h = ground (arith, h)
  all-remove_at (suc i) (x ∷ xs) h = ground (arith, h, all-remove_at i xs)

  pub all-keep : (p : A → Bool) (xs : List A) → all P xs ≡ true → all P (keep p xs) ≡ true
  all-keep p [] h = h
  all-keep p (x ∷ xs) h = ground (arith, h, all-keep p xs)

  pub all-drop : (n : ℕ) (xs : List A) → all P xs ≡ true → all P (drop n xs) ≡ true
  all-drop zero xs h = h
  all-drop (suc n) [] h = h
  all-drop (suc n) (x ∷ xs) h = all-drop n xs (ground (arith, h))

  pub all-take : (n : ℕ) (xs : List A) → all P xs ≡ true → all P (take n xs) ≡ true
  all-take zero xs h = refl
  all-take (suc n) [] h = h
  all-take (suc n) (x ∷ xs) h = ground (arith, h, all-take n xs)

module _ {ℓ} {A : Type ℓ} (P : A → Bool) where
  -- The first `n` of the list are there and satisfy `P`, and the others do not.
  abbrev pub split : ℕ → List A → Bool
  split zero xs = all (λ x. not (P x)) xs
  split (suc n) [] = false
  split (suc n) (x ∷ xs) = P x && split n xs

  pub split-all : (xs : List A) → all P xs ≡ true → split (length xs) xs ≡ true
  split-all [] h = refl
  split-all (x ∷ xs) h = ground (arith, h, split-all xs)

  pub split-append :
      (n : ℕ) (xs : List A) (x : A)
      → split n xs ≡ true
      → P x ≡ false
      → split n (xs ++ x ∷ []) ≡ true
  split-append zero [] x h e = ground (arith, e)
  split-append zero (y ∷ xs) x h e = ground (arith, h, e, split-append zero xs x)
  split-append (suc n) [] x h e = absurd cc
  split-append (suc n) (y ∷ xs) x h e = ground (arith, h, e, split-append n xs x)

  pub split-take : (k n : ℕ) (xs : List A) → k ≤ n → split n xs ≡ true → all P (take k xs) ≡ true
  split-take zero n xs l h = refl
  split-take (suc k) zero xs l h = absurd (omega arith)
  split-take (suc k) (suc n) [] l h = refl
  split-take (suc k) (suc n) (x ∷ xs) l h = ground (arith, h, split-take k n xs (omega arith))

  pub split-drop :
      (k n : ℕ) (xs : List A) → k ≤ n → split n xs ≡ true → split (n - k) (drop k xs) ≡ true
  split-drop zero n xs l h = subst (λ j. split j xs ≡ true) (omega arith) h
  split-drop (suc k) zero xs l h = absurd (omega arith)
  split-drop (suc k) (suc n) [] l h = absurd cc
  split-drop (suc k) (suc n) (x ∷ xs) l h =
      subst (λ j. split j (drop k xs) ≡ true) (omega arith)
        (split-drop k n xs (omega arith) (ground (arith, h)))

  split-remove_first :
      (i n : ℕ) (xs : List A) → i ≤ n → split (suc n) xs ≡ true → split n (remove_at i xs) ≡ true
  unfolding remove_at
  split-remove_first i n [] l h = absurd cc
  split-remove_first zero n (x ∷ xs) l h = ground (arith, h)
  split-remove_first (suc i) zero (x ∷ xs) l h = absurd (omega arith)
  split-remove_first (suc i) (suc n) (x ∷ xs) l h =
      ground (arith, h, split-remove_first i n xs (omega arith))

  pub split-remove_before :
      (i n : ℕ) (xs : List A) → i < n → split n xs ≡ true → split (n - 1) (remove_at i xs) ≡ true
  split-remove_before i zero xs l h = absurd (omega arith)
  split-remove_before i (suc n) xs l h =
      subst (λ j. split j (remove_at i xs) ≡ true) (omega arith)
        (split-remove_first i n xs (omega arith) h)

  pub split-remove_after :
      (i n : ℕ) (xs : List A) → n ≤ i → split n xs ≡ true → split n (remove_at i xs) ≡ true
  unfolding remove_at
  split-remove_after i zero xs l h = all-remove_at (λ x. not (P x)) i xs h
  split-remove_after i (suc n) [] l h = absurd cc
  split-remove_after zero (suc n) (x ∷ xs) l h = absurd (omega arith)
  split-remove_after (suc i) (suc n) (x ∷ xs) l h =
      ground (arith, h, split-remove_after i n xs (omega arith))
