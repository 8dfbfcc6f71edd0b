-- ===== src/Ledger/Bounds.antt =====
-- What appendCapped keeps (internal/ledger/ledger.go).
use dappnode_nexus_sdk.Prelude.{
  ℕ, suc, ◌-◌, ◌≤◌, ◌<◌, List, [], ◌∷◌, ◌++◌, ◌≡◌, ap, ◌∙◌, sym, arith, ltb, Bool-cases, inl, inr,
  false, length, drop, length-append, length-drop, drop-append_le, drop-suc, last_n, last_n_all,
  length-last_n, lt→ltb,
}
use dappnode_nexus_sdk.Ledger.{append_capped}

module _ {ℓ} {A : Type ℓ} where
  -- A slice with room grows by one.
  append_capped-eq_room :
      (xs : List A) (x : A) (n : ℕ) → length xs < n → append_capped xs x n ≡ xs ++ x ∷ []
  unfolding append_capped
  append_capped-eq_room xs x n h = rw (lt→ltb _ _ h)

  -- A full slice drops its first item.
  append_capped-eq_full :
      (xs : List A) (x : A) (n : ℕ) → n ≤ length xs → append_capped xs x n ≡ drop 1 xs ++ x ∷ []
  unfolding append_capped
  append_capped-eq_full xs x n h = let e : ltb (length xs) n ≡ false = ground arith in rw e

  last_n-snoc_room :
      (xs : List A) (x : A) (n : ℕ)
      → length xs < n
      → append_capped (last_n n xs) x n ≡ last_n n (xs ++ x ∷ [])
  last_n-snoc_room xs x n h = rw (last_n_all n xs (omega arith)) (
      append_capped-eq_room xs x n h
      ∙ sym (last_n_all n (xs ++ x ∷ []) (omega (arith, length-append xs (x ∷ [])))))

  last_n-snoc_full :
      (xs : List A) (x : A) (n : ℕ)
      → 0 < n
      → n ≤ length xs
      → append_capped (last_n n xs) x n ≡ last_n n (xs ++ x ∷ [])
  last_n-snoc_full xs x n pos h =
      let k = length xs - n in
      let e : length (xs ++ x ∷ []) - n ≡ suc k = omega (arith, length-append xs (x ∷ [])) in
      append_capped-eq_full (last_n n xs) x n (omega (arith, length-last_n n xs))
      ∙ ap (λ (t : List A). t ++ x ∷ []) (drop-suc k xs)
      ∙ sym (drop-append_le (suc k) xs (x ∷ []) (omega arith))
      ∙ sym (ap (λ (m : ℕ). drop m (xs ++ x ∷ [])) e)

  -- Appending to the last `n` items of a history gives the last `n` of the longer history.
  pub append_capped-last_n :
      (xs : List A) (x : A) (n : ℕ)
      → 0 < n
      → append_capped (last_n n xs) x n ≡ last_n n (xs ++ x ∷ [])
  append_capped-last_n xs x n pos = elim (Bool-cases (ltb (length xs) n)) [
    | inl e ↦ last_n-snoc_room xs x n (ground arith)
    | inr e ↦ last_n-snoc_full xs x n pos (ground arith)
  ]

  -- A slice within its limit stays within it.
  pub length-append_capped :
      (xs : List A) (x : A) (n : ℕ) → 0 < n → length xs ≤ n → length (append_capped xs x n) ≤ n
  unfolding append_capped
  length-append_capped xs x n pos h = elim (Bool-cases (ltb (length xs) n)) [
    | inl e ↦ rw e (ground (arith, length-append xs (x ∷ [])))
    | inr e ↦ rw e (ground (arith, length-append (drop 1 xs) (x ∷ []), length-drop 1 xs))
  ]
