-- ===== src/Ledger/Flush.antt =====
-- Flush of internal/ledger/store.go with others running at the same time: its three critical
-- sections as the steps of a relation. `A` is what the state file holds of a ledger.
use dappnode_nexus_sdk.Prelude.{
  ℕ, suc, ◌+◌, ◌≤◌, Bool, true, false, Option, some, List, [], ◌∷◌, ◌++◌, ◌≡◌, refl, ap, arith,
  length, length-append,
}

-- The ledger in memory and its mark, the state file, the flushes that have cleared the mark and not
-- yet copied the ledger, and the copies that are not yet written.
pub record Shared (A : Type 0) : Type 0 where
  pub memory : A
  pub dirty : Bool
  pub disk : Option A
  pub begun : ℕ
  pub copies : List A

module _ {A : Type 0} where
  pub data Step : Shared A → Shared A → Type 0 where
    -- a recorder changes the ledger and calls markDirty
    change : (s : Shared A) (a : A) → Step s (record s { memory = a; dirty = true })
    -- Flush finds the mark and clears it
    begin :
        (s : Shared A) → s.dirty ≡ true → Step s (record s { dirty = false; begun = s.begun + 1 })
    -- snapshotForDisk copies the ledger
    copy :
        (s : Shared A) (n : ℕ)
        → s.begun ≡ suc n
        → Step s (record s { begun = n; copies = s.memory ∷ s.copies })
    -- writeFileAtomic replaces the file by one of the copies
    write :
        (s : Shared A) (older newer : List A) (a : A)
        → s.copies ≡ newer ++ a ∷ older
        → Step s (record s { disk = some a; copies = newer ++ older })
    -- the encoding or the write fails, and markDirty is called
    fail :
        (s : Shared A) (older newer : List A) (a : A)
        → s.copies ≡ newer ++ a ∷ older
        → Step s (record s { dirty = true; copies = newer ++ older })

  pub data Reach (s : Shared A) : Shared A → Type 0 where
    here : Reach s s
    next : {t u : Shared A} → Reach s t → Step t u → Reach s u

  -- No flush is running.
  pub record IsQuiet (s : Shared A) : Type 0 where
    pub none_begun : s.begun ≡ 0
    pub none_copied : s.copies ≡ []

  abbrev pub flushes : Shared A → ℕ
  flushes s = s.begun + length s.copies

  -- A ledger with no mark is on disk, or a flush that is under way holds it.
  pub data IsSaved (s : Shared A) : Type 0 where
    marked : s.dirty ≡ true → IsSaved s
    settled : s.disk ≡ some s.memory → IsQuiet s → IsSaved s
    to_copy : s.begun ≡ 1 → IsSaved s
    to_write : s.copies ≡ s.memory ∷ [] → IsSaved s

  -- With one flush at a time.
  pub data Alone (s : Shared A) : Shared A → Type 0 where
    here : Alone s s
    next : {t u : Shared A} → Alone s t → Step t u → flushes u ≤ 1 → Alone s u

  no_items : (xs : List A) → length xs ≡ 0 → xs ≡ []
  no_items [] h = refl
  no_items (x ∷ xs) h = absurd (omega arith)

  one_copy :
      (m a : A) (newer older : List A)
      → m ∷ [] ≡ newer ++ a ∷ older
      → (a ≡ m) × (newer ++ older ≡ [])
  one_copy m a [] [] h = ground arith
  one_copy m a [] (y ∷ older) h = absurd (ground arith)
  one_copy m a (x ∷ []) older h = absurd (ground arith)
  one_copy m a (x ∷ y ∷ newer) older h = absurd (ground arith)

  some_copies : (xs newer older : List A) (a : A) → xs ≡ newer ++ a ∷ older → 1 ≤ length xs
  some_copies xs newer older a h = omega (arith, ap length h, length-append newer (a ∷ older))

  write-IsSaved :
      {s : Shared A} (older newer : List A) (a : A)
      → s.copies ≡ newer ++ a ∷ older
      → flushes s ≤ 1
      → IsSaved s
      → IsSaved (record s { disk = some a; copies = newer ++ older })
  write-IsSaved older newer a e few (marked d) = marked d
  write-IsSaved {s} older newer a e few (settled d q) =
      absurd (omega (arith, some_copies s.copies newer older a e, ap length q.none_copied))
  write-IsSaved {s} older newer a e few (to_copy b) =
      absurd (omega (arith, some_copies s.copies newer older a e))
  write-IsSaved {s} older newer a e few (to_write c) =
      let (same, rest) = one_copy s.memory a newer older (rw c at e) in
      settled (ap some same) (record {
        none_begun = omega (arith, some_copies s.copies newer older a e);
        none_copied = rest;
      })

  Step-IsSaved : {s u : Shared A} → Step s u → flushes s ≤ 1 → flushes u ≤ 1 → IsSaved s → IsSaved u
  Step-IsSaved (change s a) few few' h = marked refl
  Step-IsSaved (begin s d) few few' h = to_copy (omega arith)
  Step-IsSaved (copy s n e) few few' h =
      to_write (ap (◌∷◌ s.memory) (no_items s.copies (omega arith)))
  Step-IsSaved (write s older newer a e) few few' h = write-IsSaved older newer a e few h
  Step-IsSaved (fail s older newer a e) few few' h = marked refl

  Alone-few : {s u : Shared A} → flushes s ≤ 1 → Alone s u → flushes u ≤ 1
  Alone-few h here = h
  Alone-few h (next r st few) = few

  Alone-IsSaved : {s u : Shared A} → flushes s ≤ 1 → IsSaved s → Alone s u → IsSaved u
  Alone-IsSaved few h here = h
  Alone-IsSaved few h (next r st few') =
      Step-IsSaved st (Alone-few few r) few' (Alone-IsSaved few h r)

  quiet_saved : {u : Shared A} → IsQuiet u → u.dirty ≡ false → IsSaved u → u.disk ≡ some u.memory
  quiet_saved q d (marked m) = absurd (ground arith)
  quiet_saved q d (settled e _) = e
  quiet_saved q d (to_copy b) = absurd (omega (arith, q.none_begun))
  quiet_saved q d (to_write c) = absurd (ground (arith, q.none_copied))

  -- While flushes run one at a time, from a marked or saved ledger, whenever none is running and
  -- the mark is gone the state file holds the ledger.
  pub Alone-on_disk :
      {s u : Shared A}
      → flushes s ≤ 1
      → IsSaved s
      → Alone s u
      → IsQuiet u
      → u.dirty ≡ false
      → u.disk ≡ some u.memory
  Alone-on_disk few h r q d = quiet_saved q d (Alone-IsSaved few h r)

  -- Two flushes at a time can lose an update: from any marked ledger `old` with no flush running,
  -- one change to `new` later, no flush is running, the mark is gone, and the file holds `old`.
  pub overlapping_flushes :
      (old latest : A) (file : Option A)
      → Reach
          (record { memory = old; dirty = true; disk = file; begun = 0; copies = [] })
          (record { memory = latest; dirty = false; disk = some old; begun = 0; copies = [] })
  overlapping_flushes old latest file =
      let begun : Reach _ _ = next here (begin _ refl) in
      let copied : Reach _ _ = next begun (copy _ 0 refl) in
      let changed : Reach _ _ = next copied (change _ latest) in
      let begun_again : Reach _ _ = next changed (begin _ refl) in
      let copied_again : Reach _ _ = next begun_again (copy _ 0 refl) in
      let written : Reach _ _ = next copied_again (write _ (old ∷ []) [] latest refl) in
      next written (write _ [] [] old refl)
