-- ===== src/Confidential/Guard/Pass/Prefix.antt =====
-- internal/confidential/frame_guard.go: the pass that reads a prefix.
use dappnode_nexus_sdk.Prelude.{
  ℕ, zero, suc, ◌≤◌, ◌<◌, ◌≡◌, refl, ap, ◌∙◌, sym, Option, none, some, [], ◌∷◌, ◌++◌, arith, length,
  append_assoc, append-nil, true, false, Bool-cases, inl, inr, ltb, ◌==◌, drop, is_empty,
  if◌then◌else◌, ◌&&◌,
}
use dappnode_nexus_sdk.Prelude.Bytes.{Bytes}
use mathlib.Core.Path.{subst}
use dappnode_nexus_sdk.Confidential.Guard.{
  SourceError, end_of_file, failed, FrameGuard, Turn, back, source, truncated_prefix, uint32,
  max_encrypted_response_frame, is_eof, after_prefix, prefix_error, with_prefix,
}
use dappnode_nexus_sdk.Confidential.Guard.Frames.{
  AreFrames, AreFrames-Framed, Framed, Framed-prefix,
}
use dappnode_nexus_sdk.Confidential.Guard.Reader.{AtEnd, FullEnd}
use dappnode_nexus_sdk.Confidential.Guard.Invariants.{
  whole, cut_prefix, zero_length, too_large, held_of, Placed, Invariant, over, TurnIs, Cut,
}
use dappnode_nexus_sdk.Confidential.Guard.Pass.Copied.{drop_all, back_or_keep-TurnIs}

-- The guard between two frames, which reads a prefix.
pub uint32_filled :
    (xs header : Bytes) → length xs ≡ 4 → length header ≡ 4 → xs ++ drop (length xs) header ≡ xs
uint32_filled xs header hx hh =
    ap (◌++◌ xs) (drop_all (length xs) header (omega arith)) ∙ append-nil xs

held_of_positive : (n : ℕ) (header : Bytes) → 1 ≤ n → held_of n 0 header ≡ header
held_of_positive zero header h = absurd (omega arith)
held_of_positive (suc n) header h = refl

Placed-start : (n : ℕ) → Placed n 0
Placed-start zero = inl refl
Placed-start (suc n) = omega arith

AtEnd-empty :
    (e : SourceError) (got rest : Bytes)
    → is_eof e && is_empty got ≡ true
    → AtEnd e rest
    → got ++ rest ≡ []
AtEnd-empty end_of_file [] rest h t = t
AtEnd-empty end_of_file (x ∷ xs) rest h t = absurd (cc)
AtEnd-empty (failed _) got rest h t = absurd (cc)

AtEnd-Cut :
    (e : SourceError) (got rest : Bytes)
    → is_eof e && is_empty got ≡ false
    → AtEnd e rest
    → Cut e got rest
AtEnd-Cut end_of_file [] rest h t = absurd (cc)
AtEnd-Cut end_of_file (x ∷ xs) rest h t = (omega arith, t)
AtEnd-Cut (failed _) got rest h t = tt

module _ {S : Type 0} (pending : S → Bytes) where
  -- Nothing of a frame is open: the bytes given are whole frames and `p` is still to come.
  pub record Closed (w d p : Bytes) (g : FrameGuard S) : Type 0 where
    pub all : w ≡ d ++ p
    pub frames : AreFrames d
    pub no_error : g.pending_error ≡ none
    pub not_over : g.eof ≡ false

  Invariant-prefix :
      (w d got : Bytes) (g : FrameGuard S)
      → Closed w d (got ++ pending g.body) g
      → g.header ≡ got
      → length got ≡ 4
      → 1 ≤ uint32 g.header
      → uint32 g.header ≤ max_encrypted_response_frame
      → Invariant pending w (record g { frame_remaining = uint32 g.header; header_offset = 0 }) d
  Invariant-prefix w d got g c e l hp hm = record {
    taken = d ++ got;
    source = c.all ∙ sym (append_assoc d got (pending g.body));
    given = ap (◌++◌ d) (sym e ∙ sym (held_of_positive (uint32 g.header) g.header hp));
    framed =
        subst (λ n. Framed (d ++ got) n) (ap uint32 (sym e))
          (Framed-prefix d got (AreFrames-Framed d c.frames)
            (record { four = l; positive = rw (sym e) hp; bounded = rw (sym e) hm }));
    bounded = hm;
    four = rw e l;
    placed = Placed-start (uint32 g.header);
    no_error = c.no_error;
    not_over = c.not_over;
  }

  after_prefix-TurnIs :
      (w before out got : Bytes) (g : FrameGuard S)
      → Closed w (before ++ out) (got ++ pending g.body) g
      → g.header ≡ got
      → length got ≡ 4
      → TurnIs pending w before (after_prefix out g)
  after_prefix-TurnIs w before out got g c e l = elim (Bool-cases (uint32 g.header == 0)) [
    | inl t ↦ rw t (
        zero_length (before ++ out) got (pending g.body) c.all c.frames l
          (rw (sym e) (ground arith)))
    | inr t ↦ rw t (elim (Bool-cases (ltb max_encrypted_response_frame (uint32 g.header))) [
      | inl u ↦ rw u (
          too_large (before ++ out) got (pending g.body) c.all c.frames l
            (rw (sym e) (ground arith)))
      | inr u ↦ rw u (Invariant-prefix w (before ++ out) got g c e l (ground arith) (ground arith))
    ])
  ]

  stopped-TurnIs :
      (w before out : Bytes) (g : FrameGuard S)
      → Closed w (before ++ out) [] g
      → TurnIs pending w before (
          if is_empty out
          then back [] (some (source end_of_file)) (record g { eof = true })
          else back out none (record g { eof = true }))
  stopped-TurnIs w before [] g c = whole (before ++ []) (c.all ∙ append-nil (before ++ [])) c.frames
  stopped-TurnIs w before (x ∷ xs) g c =
      over c.no_error refl
        (whole (before ++ x ∷ xs) (c.all ∙ append-nil (before ++ x ∷ xs)) c.frames)

  prefix_error-TurnIs :
      (w before out got : Bytes) (g : FrameGuard S) (e : SourceError)
      → Closed w (before ++ out) (got ++ pending g.body) g
      → length got < 4
      → AtEnd e (pending g.body)
      → TurnIs pending w before (prefix_error out g got e)
  prefix_error-TurnIs w before out got g e c l t = elim (Bool-cases (is_eof e && is_empty got)) [
    | inl u ↦ rw u (
        stopped-TurnIs w before out g (record {
          all = c.all ∙ ap (◌++◌ (before ++ out)) (AtEnd-empty e got (pending g.body) u t);
          frames = c.frames;
          no_error = c.no_error;
          not_over = c.not_over;
        }))
    | inr u ↦ rw u (
        back_or_keep-TurnIs pending w before out truncated_prefix g (
          cut_prefix (before ++ out) got (pending g.body) e c.all c.frames l
            (AtEnd-Cut e got (pending g.body) u t)))
  ]

  pub with_prefix-TurnIs :
      (w before out got : Bytes) (g : FrameGuard S) (e : Option SourceError)
      → Closed w (before ++ out) (got ++ pending g.body) g
      → (length got ≡ 4 → g.header ≡ got)
      → FullEnd 4 got e (pending g.body)
      → TurnIs pending w before (with_prefix out g got e)
  with_prefix-TurnIs w before out got g none c h l =
      after_prefix-TurnIs w before out got g c (h l) l
  with_prefix-TurnIs w before out got g (some e) c h (l, t) =
      prefix_error-TurnIs w before out got g e c l t

  -- What a pass gives, if it gives anything.
  abbrev pub PassIs : Bytes → Bytes → Option (Turn S) → Type 0
  PassIs w before none = Unit
  PassIs w before (some t) = TurnIs pending w before t
