-- ===== src/Confidential/Guard/Pass/Copied.antt =====
-- internal/confidential/frame_guard.go: the pass that gives bytes of a prefix.
use dappnode_nexus_sdk.Prelude.{
  ℕ, zero, suc, ◌+◌, ◌-◌, ◌≤◌, ◌≡◌, refl, ap, ◌∙◌, sym, [], ◌∷◌, ◌++◌, arith, length, append_assoc,
  Bool, true, Bool-cases, inl, inr, ltb, ◌==◌, take, drop, length-take, length-drop, ◌&&◌, ◌||◌,
}
use dappnode_nexus_sdk.Prelude.Bytes.{Bytes}
use mathlib.Core.Path.{subst}
use dappnode_nexus_sdk.Confidential.Guard.{FrameGuard, GuardError, copy_header, back_or_keep}
use dappnode_nexus_sdk.Confidential.Guard.Invariants.{
  Ended, held_of, Placed, Invariant, running, kept, TurnIs,
}

drop_nil : (n : ℕ) → drop {A = ℕ} n [] ≡ []
drop_nil zero = refl
drop_nil (suc n) = refl

drop-drop : (n k : ℕ) (xs : Bytes) → drop k (drop n xs) ≡ drop (n + k) xs
drop-drop zero k xs = ap (λ i. drop i xs) (omega arith)
drop-drop (suc n) k [] = drop_nil k ∙ sym (drop_nil (suc n + k))
drop-drop (suc n) k (x ∷ xs) =
    let e : suc (n + k) ≡ suc n + k = omega arith in drop-drop n k xs ∙ ap (λ i. drop i (x ∷ xs)) e

pub drop_all : (n : ℕ) (xs : Bytes) → length xs ≤ n → drop n xs ≡ []
drop_all n [] h = drop_nil n
drop_all zero (x ∷ xs) h = absurd (omega arith)
drop_all (suc n) (x ∷ xs) h = drop_all n xs (omega arith)

take-append-rest : (m : ℕ) (xs : Bytes) → take m xs ++ drop (length (take m xs)) xs ≡ xs
take-append-rest zero xs = refl
take-append-rest (suc m) [] = refl
take-append-rest (suc m) (x ∷ xs) = ap (◌∷◌ x) (take-append-rest m xs)

-- The guard's test for a prefix that is still to be given.
abbrev pub to_copy : ℕ → ℕ → Bool
to_copy offset remaining = ltb offset 4 && (ltb 0 offset || ltb 0 remaining)

held_of-copied :
    (remaining offset m : ℕ) (header : Bytes)
    → to_copy offset remaining ≡ true
    → Placed remaining offset
    → held_of remaining offset header
      ≡ take m (drop offset header)
        ++ held_of remaining (offset + length (take m (drop offset header))) header
held_of-copied zero offset m header h (inl e) = absurd (ground (arith))
held_of-copied zero offset m header h (inr e) = absurd (ground (arith))
held_of-copied (suc n) offset m header h p =
    sym (take-append-rest m (drop offset header))
    ∙ ap (◌++◌ (take m (drop offset header)))
        (drop-drop offset (length (take m (drop offset header))) header)

Placed-copied :
    (remaining offset m : ℕ) (header : Bytes)
    → to_copy offset remaining ≡ true
    → length header ≡ 4
    → Placed remaining offset
    → Placed remaining (offset + length (take m (drop offset header)))
Placed-copied zero offset m header h l (inl e) = absurd (ground (arith))
Placed-copied zero offset m header h l (inr e) = absurd (ground (arith))
Placed-copied (suc n) offset m header h l p =
    omega (arith, length-take m (drop offset header), length-drop offset header)

module _ {S : Type 0} (pending : S → Bytes) where
  Invariant-copied :
      (w d : Bytes) (g : FrameGuard S) (m : ℕ)
      → to_copy g.header_offset g.frame_remaining ≡ true
      → Invariant pending w g d
      → Invariant pending w
          (record g {
            header_offset = g.header_offset + length (take m (drop g.header_offset g.header));
          })
          (d ++ take m (drop g.header_offset g.header))
  Invariant-copied w d g m h i = record {
    taken = i.taken;
    source = i.source;
    given =
        i.given
        ∙ (ap (◌++◌ d) (held_of-copied g.frame_remaining g.header_offset m g.header h i.placed)
            ∙ sym (append_assoc d _ _));
    framed = i.framed;
    bounded = i.bounded;
    four = i.four;
    placed = Placed-copied g.frame_remaining g.header_offset m g.header h i.four i.placed;
    no_error = i.no_error;
    not_over = i.not_over;
  }

  pub copy_header-TurnIs :
      (w before out : Bytes) (size : ℕ) (g : FrameGuard S)
      → to_copy g.header_offset g.frame_remaining ≡ true
      → Invariant pending w g (before ++ out)
      → TurnIs pending w before (copy_header size out g)
  unfolding copy_header
  copy_header-TurnIs w before out size g h i =
      let chunk = take (size - length out) (drop g.header_offset g.header) in
      let next : Invariant pending w (record g { header_offset = g.header_offset + length chunk })
          (before ++ (out ++ chunk)) =
        subst (Invariant pending w _) (append_assoc before out chunk)
          (Invariant-copied w (before ++ out) g (size - length out) h i) in
      elim (Bool-cases (length (out ++ chunk) == size)) [
        | inl t ↦ rw t (running next)
        | inr t ↦ rw t next
      ]

  pub back_or_keep-TurnIs :
      (w before out : Bytes) (e : GuardError) (g : FrameGuard S)
      → Ended w e (before ++ out)
      → TurnIs pending w before (back_or_keep out e g)
  back_or_keep-TurnIs w before [] e g h = h
  back_or_keep-TurnIs w before (x ∷ xs) e g h = kept e refl h
