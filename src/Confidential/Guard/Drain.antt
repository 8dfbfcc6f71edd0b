-- ===== src/Confidential/Guard/Drain.antt =====
-- internal/confidential/frame_guard.go: what a reader of the guard is given, call after call.
use native.Mathlib.Omega.{arith}
use dappnode_nexus_sdk.Prelude.{
  ℕ, zero, suc, ◌≡◌, refl, ◌∙◌, sym, Option, none, some, [], ◌++◌, append-nil, Bool, true, false,
  Bool-cases, inl, inr, ltb, length,
}
use dappnode_nexus_sdk.Prelude.Bytes.{Bytes}
use mathlib.Core.Option.{some-injective}
use mathlib.Core.Path.{subst}
use dappnode_nexus_sdk.Confidential.Guard.{
  end_of_file, Reply, FrameGuard, Turn, again, back, GuardError, source, frame_guard, turn,
  after_turn, read_loop, read_after, guard_read,
}
use dappnode_nexus_sdk.Confidential.Guard.Frames.{no_frame, AreFrames-Framed}
use dappnode_nexus_sdk.Confidential.Guard.Reader.{Reads}
use dappnode_nexus_sdk.Confidential.Guard.Invariants.{
  Ended, Invariant, State, running, kept, over, ReadIs,
}
use dappnode_nexus_sdk.Confidential.Guard.Pass.{turn-PassIs}
use dappnode_nexus_sdk.Confidential.Guard.Pass.Prefix.{PassIs}

-- All that calls of Read give after `d`, up to the first error, if the fuel is enough.
abbrev pub DrainIs : Bytes → Bytes → Option (Bytes × Option GuardError) → Type 0
DrainIs w d none = Unit
DrainIs w d (some (out, none)) = (rest : Bytes) × (w ≡ (d ++ out) ++ rest)
DrainIs w d (some (out, some e)) = Ended w e (d ++ out)

module _ {S : Type 0} (pending : S → Bytes) where
  -- What one call of Read gives after `d`, if the fuel is enough.
  abbrev pub GivesIs : Bytes → Bytes → Option (Bytes × Option GuardError × FrameGuard S) → Type 0
  GivesIs w d none = Unit
  GivesIs w d (some (out, e, g)) = ReadIs pending w (d ++ out) e g

  after_turn-GivesIs :
      (w d : Bytes)
      (next : Bytes → FrameGuard S → Option (Bytes × Option GuardError × FrameGuard S))
      (o : Option (Turn S))
      → ((out : Bytes) (g : FrameGuard S)
          → Invariant pending w g (d ++ out)
          → GivesIs w d (next out g))
      → PassIs pending w d o
      → GivesIs w d (after_turn next o)
  after_turn-GivesIs w d next none ih h = tt
  after_turn-GivesIs w d next (some (again out g)) ih h = ih out g h
  after_turn-GivesIs w d next (some (back out e g)) ih h = h

module _ {S : Type 0} (read : ℕ → S → Reply S) (pending : S → Bytes)
    (laws : Reads read pending) where
  read_loop-GivesIs :
      (fuel size : ℕ) (w d out : Bytes) (g : FrameGuard S)
      → Invariant pending w g (d ++ out)
      → GivesIs pending w d (read_loop read fuel size out g)
  unfolding read_loop
  read_loop-GivesIs zero size w d out g i = tt
  read_loop-GivesIs (suc fuel) size w d out g i = elim (Bool-cases (ltb (length out) size)) [
    | inl t ↦
        rw (t, GivesIs)
          (after_turn-GivesIs pending w d (read_loop read fuel size) (turn read fuel size out g)
            (λ o h. read_loop-GivesIs fuel size w d o h)
            (turn-PassIs read pending laws fuel size w d out g i))
    | inr t ↦ rw (t, GivesIs) (running i)
  ]

  read_after-GivesIs :
      (fuel size : ℕ) (w d : Bytes) (g : FrameGuard S) (p : Option GuardError) (b : Bool)
      → g.pending_error ≡ p
      → g.eof ≡ b
      → State pending w g d
      → GivesIs pending w d (read_after read fuel size g p b)
  read_after-GivesIs fuel size w d g (some e) b hp hb (running i) = absurd (cc)
  read_after-GivesIs fuel size w d g (some e) b hp hb (kept e' k h) =
      subst (Ended w e) (sym (append-nil d))
        (subst (λ x. Ended w x d) (some-injective e' e (sym k ∙ hp)) h)
  read_after-GivesIs fuel size w d g (some e) b hp hb (over k o h) = absurd (cc)
  read_after-GivesIs fuel size w d g none true hp hb (running i) = absurd (cc)
  read_after-GivesIs fuel size w d g none true hp hb (kept e' k h) = absurd (cc)
  read_after-GivesIs fuel size w d g none true hp hb (over k o h) =
      subst (Ended w (source end_of_file)) (sym (append-nil d)) h
  read_after-GivesIs fuel size w d g none false hp hb (running i) =
      read_loop-GivesIs fuel size w d [] g (subst (Invariant pending w g) (sym (append-nil d)) i)
  read_after-GivesIs fuel size w d g none false hp hb (kept e' k h) = absurd (cc)
  read_after-GivesIs fuel size w d g none false hp hb (over k o h) = absurd (cc)

  State-nil : (w d : Bytes) (g : FrameGuard S) → State pending w g d → State pending w g (d ++ [])
  State-nil w d g h = subst (State pending w g) (sym (append-nil d)) h

  pub guard_read-GivesIs :
      (fuel size : ℕ) (w d : Bytes) (g : FrameGuard S)
      → State pending w g d
      → GivesIs pending w d (guard_read read fuel size g)
  unfolding guard_read
  guard_read-GivesIs fuel zero w d g h = State-nil w d g h
  guard_read-GivesIs fuel (suc size) w d g h =
      read_after-GivesIs fuel (suc size) w d g g.pending_error g.eof refl refl h

  pub frame_guard-Invariant : (s : S) → Invariant pending (pending s) (frame_guard s) []
  frame_guard-Invariant s = record {
    taken = [];
    source = refl;
    given = refl;
    framed = AreFrames-Framed [] no_frame;
    bounded = omega arith;
    four = refl;
    placed = inl refl;
    no_error = refl;
    not_over = refl;
  }
