-- ===== src/Confidential/Guard/Fuel.antt =====
-- internal/confidential/frame_guard.go: the loops of Read and io.ReadFull end. `calls` bounds how
-- often the body answers without an error.
pub mod Passes
use dappnode_nexus_sdk.Prelude.{
  ℕ, zero, suc, ◌+◌, ◌-◌, ◌*◌, min, ◌≤◌, ◌<◌, ◌≡◌, refl, Option, none, some, List, [], ◌∷◌, ◌++◌,
  arith, length, length-append, length-take, length-drop, Bool, true, false, Bool-cases, inl, inr,
  ltb, ◌==◌, take, drop, is_empty, ◌&&◌, ap, sym, ◌≢◌, append-nil, if◌then◌else◌,
}
use dappnode_nexus_sdk.Prelude.Bytes.{Bytes}
use mathlib.Core.Path.{subst}
use dappnode_nexus_sdk.Confidential.Guard.Drain.{GivesIs, guard_read-GivesIs, frame_guard-Invariant}
use dappnode_nexus_sdk.Confidential.Guard.{
  SourceError, Reply, FrameGuard, Turn, again, back, GuardError, source, uint32, read_more,
  read_full, prepend, copy_header, read_body, read_prefix, close_frame, took, after_body,
  after_prefix, with_prefix, prefix_error, back_or_keep, filled, map_turn, turn, after_turn,
  read_loop, read_after, guard_read, drain_then, drain_after, drain, frame_guard, is_eof,
  max_encrypted_response_frame, ciphertext_error, truncated_prefix,
}
use dappnode_nexus_sdk.Confidential.Guard.Reader.{Reads}
use dappnode_nexus_sdk.Confidential.Guard.Invariants.{Invariant, Placed, State, running, kept, over}
use dappnode_nexus_sdk.Confidential.Guard.Pass.{turn-PassIs}
use dappnode_nexus_sdk.Confidential.Guard.Pass.Prefix.{PassIs}
use dappnode_nexus_sdk.Confidential.Guard.Pass.Copied.{to_copy}
use dappnode_nexus_sdk.Confidential.Guard.Fuel.Passes.{
  FullSpent, TurnSpent, LoopSpent, passes, phase_le, prepend-FullSpent, copy_header-TurnSpent,
  after_body-TurnSpent, map_turn-TurnSpent, Answers,
}

-- The drain is not out of fuel.
abbrev pub Returns : Option (Bytes × Option GuardError) → Type 0
Returns o = o ≢ none

module _ {S : Type 0} (read : ℕ → S → Reply S) (pending : S → Bytes) (laws : Reads read pending)
    (calls : S → ℕ) (answers : Answers read calls) where
  read_more-FullSpent :
      (next : ℕ → S → Option (Reply S)) (n : ℕ) (s s' : S) (xs : Bytes) (e : Option SourceError)
      → calls s' ≤ calls s
      → (e ≡ none → FullSpent calls s' (next (n - length xs) s'))
      → FullSpent calls s (read_more next n xs s' e)
  read_more-FullSpent next n s s' xs none h ih =
      prepend-FullSpent calls s s' xs (next (n - length xs) s') h (ih refl)
  read_more-FullSpent next n s s' xs (some e) h ih = h

  read_full-FullSpent :
      (fuel n : ℕ) (s : S) → calls s < fuel → FullSpent calls s (read_full read fuel n s)
  unfolding read_full
  read_full-FullSpent fuel zero s h = omega arith
  read_full-FullSpent zero (suc n) s h = absurd (omega arith)
  read_full-FullSpent (suc fuel) (suc n) s h =
      let r = read (suc n) s in
      let fewer : r.error ≡ none → calls r.rest < calls s = answers.fewer (suc n) s (omega arith) in
      read_more-FullSpent (read_full read fuel) (suc n) s r.rest r.bytes r.error
        (answers.no_more (suc n) s)
        (λ e. read_full-FullSpent fuel (suc n - length r.bytes) r.rest (omega (arith, fewer e)))

  turn-TurnSpent :
      (fuel size : ℕ) (out : Bytes) (g : FrameGuard S)
      → length out < size
      → calls g.body < fuel
      → length g.header ≡ 4
      → Placed g.frame_remaining g.header_offset
      → TurnSpent calls g (turn read fuel size out g)
  unfolding turn read_body read_prefix
  turn-TurnSpent fuel size out g h k l p =
      let n = min (size - length out) g.frame_remaining in
      let r = read n g.body in
      elim (Bool-cases (to_copy g.header_offset g.frame_remaining)) [
        | inl t ↦ rw (t, TurnSpent) (copy_header-TurnSpent calls g size out h l p t)
        | inr t ↦
            rw (t, TurnSpent)
              (elim (Bool-cases (ltb 0 g.frame_remaining)) [
                | inl u ↦
                    rw (u, TurnSpent)
                      (after_body-TurnSpent calls g (took g r) out r.bytes r.error
                        (answers.no_more n g.body) (answers.fewer n g.body (ground arith)))
                | inr u ↦
                    rw (u, TurnSpent)
                      (map_turn-TurnSpent calls g out (read_full read fuel 4 g.body)
                        (read_full-FullSpent fuel 4 g.body k) t (ground arith))
              ])
      ]

  LoopSpent-le :
      (g g' : FrameGuard S) (o : Option (Bytes × Option GuardError × FrameGuard S))
      → calls g'.body ≤ calls g.body
      → LoopSpent calls g' o
      → LoopSpent calls g o
  LoopSpent-le g g' none h k = k
  LoopSpent-le g g' (some (out, e, g'')) h k = omega arith

  after_turn-LoopSpent :
      (w d : Bytes) (g : FrameGuard S)
      (next : Bytes → FrameGuard S → Option (Bytes × Option GuardError × FrameGuard S))
      (o : Option (Turn S))
      → ((out : Bytes) (g' : FrameGuard S)
          → passes calls g' < passes calls g
          → Invariant pending w g' (d ++ out)
          → LoopSpent calls g' (next out g'))
      → TurnSpent calls g o
      → PassIs pending w d o
      → LoopSpent calls g (after_turn next o)
  after_turn-LoopSpent w d g next none ih h i = h
  after_turn-LoopSpent w d g next (some (again out g')) ih h i =
      LoopSpent-le g g' (next out g') (omega (arith, phase_le calls g, h)) (ih out g' h i)
  after_turn-LoopSpent w d g next (some (back out e g')) ih h i = h

  read_loop-LoopSpent :
      (fuel size : ℕ) (w d out : Bytes) (g : FrameGuard S)
      → passes calls g < fuel
      → Invariant pending w g (d ++ out)
      → LoopSpent calls g (read_loop read fuel size out g)
  unfolding read_loop
  read_loop-LoopSpent zero size w d out g h i = absurd (omega arith)
  read_loop-LoopSpent (suc fuel) size w d out g h i = elim (Bool-cases (ltb (length out) size)) [
    | inl t ↦
        rw (t, LoopSpent)
          (after_turn-LoopSpent w d g (read_loop read fuel size) (turn read fuel size out g)
            (λ o g' k j. read_loop-LoopSpent fuel size w d o g' (omega arith) j)
            (turn-TurnSpent fuel size out g (ground arith) (omega arith) i.four i.placed)
            (turn-PassIs read pending laws fuel size w d out g i))
    | inr t ↦ rw (t, LoopSpent) (omega arith)
  ]

  read_after-LoopSpent :
      (fuel size : ℕ) (w d : Bytes) (g : FrameGuard S) (p : Option GuardError) (b : Bool)
      → g.pending_error ≡ p
      → g.eof ≡ b
      → 3 * calls g.body + 3 < fuel
      → State pending w g d
      → LoopSpent calls g (read_after read fuel size g p b)
  read_after-LoopSpent fuel size w d g (some e) b hp hb h k = omega arith
  read_after-LoopSpent fuel size w d g none true hp hb h k = omega arith
  read_after-LoopSpent fuel size w d g none false hp hb h (running i) =
      read_loop-LoopSpent fuel size w d [] g (omega (arith, phase_le calls g))
        (subst (Invariant pending w g) (sym (append-nil d)) i)
  read_after-LoopSpent fuel size w d g none false hp hb h (kept e k j) = absurd (cc)
  read_after-LoopSpent fuel size w d g none false hp hb h (over k o j) = absurd (cc)

  guard_read-LoopSpent :
      (fuel size : ℕ) (w d : Bytes) (g : FrameGuard S)
      → 3 * calls g.body + 3 < fuel
      → State pending w g d
      → LoopSpent calls g (guard_read read fuel size g)
  unfolding guard_read
  guard_read-LoopSpent fuel zero w d g h k = omega arith
  guard_read-LoopSpent fuel (suc size) w d g h k =
      read_after-LoopSpent fuel (suc size) w d g g.pending_error g.eof refl refl h k

  some-Returns : (x : Bytes × Option GuardError) → Returns (some x)
  some-Returns x h = absurd (cc)

  drain_then-Returns :
      (out : Bytes) (o : Option (Bytes × Option GuardError))
      → Returns o
      → Returns (drain_then out o)
  drain_then-Returns out none h = h
  drain_then-Returns out (some (more, e)) h = some-Returns (out ++ more, e)

  drain_after-Returns :
      (w d : Bytes) (g : FrameGuard S) (next : FrameGuard S → Option (Bytes × Option GuardError))
      (o : Option (Bytes × Option GuardError × FrameGuard S))
      → ((g' : FrameGuard S) (x : Bytes)
          → calls g'.body ≤ calls g.body
          → State pending w g' x
          → Returns (next g'))
      → LoopSpent calls g o
      → GivesIs pending w d o
      → Returns (drain_after next o)
  drain_after-Returns w d g next none ih h k = absurd h
  drain_after-Returns w d g next (some (out, none, g')) ih h k =
      drain_then-Returns out (next g') (ih g' (d ++ out) h k)
  drain_after-Returns w d g next (some (out, some e, g')) ih h k = some-Returns (out, some e)

  State-Returns :
      (fuel : ℕ) (sizes : List ℕ) (w d : Bytes) (g : FrameGuard S)
      → 3 * calls g.body + 3 < fuel
      → State pending w g d
      → Returns (drain read fuel sizes g)
  unfolding drain
  State-Returns fuel [] w d g h k = some-Returns ([], none)
  State-Returns fuel (n ∷ ns) w d g h k =
      drain_after-Returns w d g (drain read fuel ns) (guard_read read fuel n g)
        (λ g' x l j. State-Returns fuel ns w x g' (omega arith) j)
        (guard_read-LoopSpent fuel n w d g h k)
        (guard_read-GivesIs read pending laws fuel n w d g k)

  -- A body that answers at most `calls` times without an error, and then with errors, never makes
  -- the loops go on for ever: with fuel for three passes to an answer, every sequence of calls of
  -- Read on the guarded body returns.
  pub drain-Returns :
      (fuel : ℕ) (sizes : List ℕ) (s : S)
      → 3 * calls s + 3 < fuel
      → Returns (drain read fuel sizes (frame_guard s))
  drain-Returns fuel sizes s h =
      State-Returns fuel sizes (pending s) [] (frame_guard s) h
        (running (frame_guard-Invariant read pending laws s))
