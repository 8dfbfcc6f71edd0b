-- ===== src/Confidential/Guard/Pass/Body.antt =====
-- internal/confidential/frame_guard.go: the pass that reads ciphertext.
use dappnode_nexus_sdk.Prelude.{
  ℕ, zero, suc, ◌-◌, ◌≤◌, min, ◌≡◌, refl, ap, ◌∙◌, sym, Option, none, some, [], ◌∷◌, ◌++◌, arith,
  length, append_assoc, append-nil, true, false, Bool-cases, inl, inr, ltb, ◌==◌,
}
use dappnode_nexus_sdk.Prelude.Bytes.{Bytes}
use mathlib.Core.Path.{subst}
use dappnode_nexus_sdk.Confidential.Guard.{
  SourceError, end_of_file, failed, Reply, FrameGuard, no_header, max_encrypted_response_frame,
  sub32, ciphertext_error, took, close_frame, after_body, read_body,
}
use dappnode_nexus_sdk.Confidential.Guard.Frames.{Framed, Framed-AreFrames, Framed-more}
use dappnode_nexus_sdk.Confidential.Guard.Reader.{Reads, AtEnd, EndsRight}
use dappnode_nexus_sdk.Confidential.Guard.Invariants.{
  Ended, whole, broken, cut_ciphertext, held_of, Placed, Invariant, TurnIs,
}
use dappnode_nexus_sdk.Confidential.Guard.Pass.Copied.{drop_all, to_copy, back_or_keep-TurnIs}

ciphertext_error-Ended :
    (w d p : Bytes) (n : ℕ) (e : SourceError)
    → w ≡ d ++ p
    → Framed d n
    → AtEnd e p
    → Ended w (ciphertext_error e n) d
ciphertext_error-Ended w d p n (failed t) hw hf _ = broken d t p n hw hf
ciphertext_error-Ended w d p zero end_of_file hw hf he =
    whole d (hw ∙ rw he (append-nil d)) (Framed-AreFrames d hf)
ciphertext_error-Ended w d p (suc n) end_of_file hw hf he =
    let t : ltb 0 (suc n) ≡ true = ground arith in
    rw t (cut_ciphertext d (suc n) (hw ∙ rw he (append-nil d)) (omega arith) hf)

-- While no part of a prefix is held, what was taken is what was given.
nothing_held :
    (n offset : ℕ) (taken d header : Bytes)
    → to_copy offset n ≡ false
    → length header ≡ 4
    → taken ≡ d ++ held_of n offset header
    → taken ≡ d
nothing_held zero offset taken d header h l e = e ∙ append-nil d
nothing_held (suc n) offset taken d header h l e =
    e ∙ (ap (◌++◌ d) (drop_all offset header (ground arith)) ∙ append-nil d)

Placed-full : (n m offset : ℕ) → to_copy offset (suc n) ≡ false → offset ≤ 4 → Placed m offset
Placed-full n zero offset h l = inr (ground arith)
Placed-full n (suc m) offset h l = l

pub sub32_lem : (a b : ℕ) → b ≤ a → a ≤ max_encrypted_response_frame → sub32 a b ≡ a - b
unfolding sub32
sub32_lem a b h k = omega arith

Placed-after :
    (n m offset : ℕ) → 1 ≤ n → to_copy offset n ≡ false → Placed n offset → Placed m offset
Placed-after zero m offset h t p = absurd (omega arith)
Placed-after (suc n) m offset h t p = Placed-full n m offset t p

held_of-after :
    (n m offset : ℕ) (header : Bytes)
    → 1 ≤ n
    → to_copy offset n ≡ false
    → length header ≡ 4
    → held_of m offset header ≡ []
held_of-after n zero offset header h t l = refl
held_of-after zero (suc m) offset header h t l = absurd (omega arith)
held_of-after (suc n) (suc m) offset header h t l = drop_all offset header (ground arith)

pub held_of_zero : (n offset : ℕ) (header : Bytes) → n ≡ 0 → held_of n offset header ≡ []
held_of_zero zero offset header h = refl
held_of_zero (suc n) offset header h = absurd (omega arith)

Placed-zero : (n : ℕ) → n ≡ 0 → Placed n 0
Placed-zero zero h = inl refl
Placed-zero (suc n) h = absurd (omega arith)

module _ {S : Type 0} (read : ℕ → S → Reply S) (pending : S → Bytes)
    (laws : Reads read pending) where
  -- The body gave `xs` of the frame.
  Invariant-took :
      (w d : Bytes) (g : FrameGuard S) (n : ℕ)
      → n ≤ g.frame_remaining
      → 1 ≤ g.frame_remaining
      → to_copy g.header_offset g.frame_remaining ≡ false
      → Invariant pending w g d
      → Invariant pending w (took g (read n g.body)) (d ++ (read n g.body).bytes)
  Invariant-took w d g n hn hp t i =
      let r = read n g.body in
      let short : length r.bytes ≤ g.frame_remaining = omega (arith, laws.at_most n g.body) in
      let e : sub32 g.frame_remaining (length r.bytes) ≡ g.frame_remaining - length r.bytes =
        sub32_lem g.frame_remaining (length r.bytes) short i.bounded in
      let given : i.taken ≡ d =
        nothing_held g.frame_remaining g.header_offset i.taken d g.header t i.four i.given in
      record {
        taken = i.taken ++ r.bytes;
        source =
            i.source
            ∙ (ap (◌++◌ i.taken) (laws.in_order n g.body)
                ∙ sym (append_assoc i.taken r.bytes (pending r.rest)));
        given =
            ap (λ x. x ++ r.bytes) given
            ∙ (sym (append-nil (d ++ r.bytes))
                ∙ ap (◌++◌ (d ++ r.bytes))
                    (sym (held_of-after g.frame_remaining _ g.header_offset g.header hp t i.four)));
        framed =
            Framed-more i.taken r.bytes g.frame_remaining _ (omega (arith, e, short)) hp i.framed;
        bounded = omega (arith, e, i.bounded);
        four = i.four;
        placed = Placed-after g.frame_remaining _ g.header_offset hp t i.placed;
        no_error = i.no_error;
        not_over = i.not_over;
      }

  Invariant-closed :
      (w d : Bytes) (g : FrameGuard S)
      → g.frame_remaining ≡ 0
      → Invariant pending w g d
      → Invariant pending w (record g { header_offset = 0; header = no_header }) d
  Invariant-closed w d g e i = record {
    taken = i.taken;
    source = i.source;
    given =
        i.given
        ∙ ap (◌++◌ d) (
            held_of_zero g.frame_remaining g.header_offset g.header e
            ∙ sym (held_of_zero g.frame_remaining 0 no_header e));
    framed = i.framed;
    bounded = i.bounded;
    four = refl;
    placed = Placed-zero g.frame_remaining e;
    no_error = i.no_error;
    not_over = i.not_over;
  }

  close_frame-Invariant :
      (w d xs : Bytes) (g : FrameGuard S)
      → Invariant pending w g d
      → Invariant pending w (close_frame xs g) d
  close_frame-Invariant w d [] g i = i
  close_frame-Invariant w d (x ∷ xs) g i = elim (Bool-cases (g.frame_remaining == 0)) [
    | inl t ↦ rw t (Invariant-closed w d g (ground arith) i)
    | inr t ↦ rw t i
  ]

  after_body-TurnIs :
      (w before out xs : Bytes) (g : FrameGuard S) (e : Option SourceError)
      → held_of g.frame_remaining g.header_offset g.header ≡ []
      → EndsRight e (pending g.body)
      → Invariant pending w g (before ++ (out ++ xs))
      → TurnIs pending w before (after_body out g xs e)
  after_body-TurnIs w before out xs g none hh he i =
      close_frame-Invariant w (before ++ (out ++ xs)) xs g i
  after_body-TurnIs w before out xs g (some e) hh he i =
      let d = before ++ (out ++ xs) in
      let given : i.taken ≡ d = i.given ∙ (ap (◌++◌ d) hh ∙ append-nil d) in
      back_or_keep-TurnIs pending w before (out ++ xs) (ciphertext_error e g.frame_remaining) g (
        ciphertext_error-Ended w d (pending g.body) g.frame_remaining e
          (i.source ∙ ap (λ x. x ++ pending g.body) given)
          (subst (λ x. Framed x g.frame_remaining) given i.framed) he)

  pub read_body-TurnIs :
      (w before out : Bytes) (size : ℕ) (g : FrameGuard S)
      → to_copy g.header_offset g.frame_remaining ≡ false
      → ltb 0 g.frame_remaining ≡ true
      → Invariant pending w g (before ++ out)
      → TurnIs pending w before (read_body read size out g)
  unfolding read_body
  read_body-TurnIs w before out size g t p i =
      let n = min (size - length out) g.frame_remaining in
      let r = read n g.body in
      after_body-TurnIs w before out r.bytes (took g r) r.error
        (held_of-after g.frame_remaining _ g.header_offset g.header (ground arith) t i.four)
        (laws.ends_right n g.body)
        (subst (Invariant pending w (took g r)) (append_assoc before out r.bytes)
          (Invariant-took w (before ++ out) g n (omega arith) (ground arith) t i))
