-- ===== src/Confidential/Guard/Pass.antt =====
-- internal/confidential/frame_guard.go: what one pass of the loop of Read keeps true. `w` is all
-- that the body gives, `d` what the guard's reader has been given.
pub mod Copied
pub mod Body
pub mod Prefix
use dappnode_nexus_sdk.Prelude.{
  ℕ, zero, suc, ◌+◌, ◌-◌, ◌≤◌, ◌<◌, min, ◌≡◌, refl, ap, ◌∙◌, sym, Option, none, some, List, [], ◌∷◌,
  ◌++◌, arith, length, length-append, append_assoc, append-nil, Bool, true, false, Bool-cases, inl,
  inr, ◌⊎◌, ltb, ◌==◌, take, drop, is_empty, if◌then◌else◌, length-take, length-drop, ◌&&◌, ◌||◌,
}
use dappnode_nexus_sdk.Prelude.Bytes.{Bytes}
use mathlib.Core.Path.{subst}
use dappnode_nexus_sdk.Confidential.Guard.{
  SourceError, end_of_file, failed, Reply, FrameGuard, Turn, again, back, GuardError, source,
  truncated_prefix, truncated_ciphertext, zero_frame, oversized_frame, uint32, no_header,
  max_encrypted_response_frame, copy_header, sub32, back_or_keep, ciphertext_error, is_eof, took,
  close_frame, after_body, read_body, after_prefix, prefix_error, with_prefix, filled, read_prefix,
  read_full, map_turn, turn,
}
use dappnode_nexus_sdk.Confidential.Guard.Frames.{
  AreFrames, AreFrames-Framed, Framed, Framed-AreFrames, Framed-more, Framed-prefix, IsPrefix,
}
use dappnode_nexus_sdk.Confidential.Guard.Reader.{
  Reads, AtEnd, EndsRight, IsFull, FullEnd, read_full-IsFull,
}
use dappnode_nexus_sdk.Confidential.Guard.Invariants.{
  Ended, whole, broken, cut_ciphertext, cut_prefix, zero_length, too_large, held_of, Placed,
  Invariant, State, running, kept, over, ReadIs, TurnIs, Cut,
}
use dappnode_nexus_sdk.Confidential.Guard.Pass.Copied.{
  drop_all, to_copy, copy_header-TurnIs, back_or_keep-TurnIs,
}
use dappnode_nexus_sdk.Confidential.Guard.Pass.Body.{held_of_zero, read_body-TurnIs}
use dappnode_nexus_sdk.Confidential.Guard.Pass.Prefix.{
  uint32_filled, Closed, with_prefix-TurnIs, PassIs,
}

module _ {S : Type 0} (read : ℕ → S → Reply S) (pending : S → Bytes)
    (laws : Reads read pending) where
  Invariant-Closed :
      (w d : Bytes) (g : FrameGuard S) (r : Reply S)
      → g.frame_remaining ≡ 0
      → IsFull pending 4 g.body r
      → Invariant pending w g d
      → Closed pending w d (r.bytes ++ pending r.rest) (filled g r)
  Invariant-Closed w d g r e f i =
      let given : i.taken ≡ d =
        i.given
        ∙ (ap (◌++◌ d) (held_of_zero g.frame_remaining g.header_offset g.header e)
            ∙ append-nil d) in
      record {
        all = i.source ∙ (ap (λ x. x ++ pending g.body) given ∙ ap (◌++◌ d) f.front);
        frames =
            Framed-AreFrames d
              (subst (λ n. Framed d n) e (subst (λ x. Framed x g.frame_remaining) given i.framed));
        no_error = i.no_error;
        not_over = i.not_over;
      }

  map_turn-PassIs :
      (w before out : Bytes) (g : FrameGuard S) (o : Option (Reply S))
      → g.frame_remaining ≡ 0
      → ((r : Reply S) → o ≡ some r → IsFull pending 4 g.body r)
      → Invariant pending w g (before ++ out)
      → PassIs pending w before (map_turn o (λ r. with_prefix out (filled g r) r.bytes r.error))
  map_turn-PassIs w before out g none e f i = tt
  map_turn-PassIs w before out g (some r) e f i =
      with_prefix-TurnIs pending w before out r.bytes (filled g r) r.error
        (Invariant-Closed w (before ++ out) g r e (f r refl) i)
        (λ l. uint32_filled r.bytes g.header l i.four) (f r refl).ending

  pub turn-PassIs :
      (fuel size : ℕ) (w before out : Bytes) (g : FrameGuard S)
      → Invariant pending w g (before ++ out)
      → PassIs pending w before (turn read fuel size out g)
  unfolding turn read_prefix
  turn-PassIs fuel size w before out g i =
      elim (Bool-cases (to_copy g.header_offset g.frame_remaining)) [
        | inl t ↦ rw t (copy_header-TurnIs pending w before out size g t i)
        | inr t ↦ rw t (elim (Bool-cases (ltb 0 g.frame_remaining)) [
          | inl u ↦ rw u (read_body-TurnIs read pending laws w before out size g t u i)
          | inr u ↦ rw u (
              map_turn-PassIs w before out g (read_full read fuel 4 g.body) (ground arith)
                (λ r. read_full-IsFull read pending laws fuel 4 g.body r) i)
        ])
      ]
