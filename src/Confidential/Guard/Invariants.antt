-- ===== src/Confidential/Guard/Invariants.antt =====
-- internal/confidential/frame_guard.go: what Read keeps true. `w` is all
-- that the body gives, `d` what the guard's reader has been given.
use dappnode_nexus_sdk.Prelude.{
  ℕ, zero, suc, ◌≤◌, ◌<◌, ◌≡◌, Option, none, some, [], ◌++◌, length, true, false, ◌⊎◌, drop,
}
use dappnode_nexus_sdk.Prelude.Bytes.{Bytes}
use dappnode_nexus_sdk.Confidential.Guard.{
  SourceError, end_of_file, failed, FrameGuard, Turn, again, back, GuardError, source,
  truncated_prefix, truncated_ciphertext, zero_frame, oversized_frame, uint32,
  max_encrypted_response_frame,
}
use dappnode_nexus_sdk.Confidential.Guard.Frames.{AreFrames, Framed}

-- A prefix that was cut: io.EOF came after one to three bytes, or another error stopped it.
abbrev pub Cut : SourceError → Bytes → Bytes → Type 0
Cut end_of_file got rest = (1 ≤ length got) × (rest ≡ [])
Cut (failed _) got rest = Unit

-- What an error says of the bytes given before it.
pub data Ended (w : Bytes) : GuardError → Bytes → Type 0 where
  whole : (d : Bytes) → w ≡ d → AreFrames d → Ended w (source end_of_file) d
  broken :
      (d text rest : Bytes) (n : ℕ) → w ≡ d ++ rest → Framed d n → Ended w (source (failed text)) d
  cut_ciphertext : (d : Bytes) (n : ℕ) → w ≡ d → 1 ≤ n → Framed d n → Ended w truncated_ciphertext d
  cut_prefix :
      (d got rest : Bytes) (e : SourceError)
      → w ≡ d ++ (got ++ rest)
      → AreFrames d
      → length got < 4
      → Cut e got rest
      → Ended w truncated_prefix d
  zero_length :
      (d prefix rest : Bytes)
      → w ≡ d ++ (prefix ++ rest)
      → AreFrames d
      → length prefix ≡ 4
      → uint32 prefix ≡ 0
      → Ended w zero_frame d
  too_large :
      (d prefix rest : Bytes)
      → w ≡ d ++ (prefix ++ rest)
      → AreFrames d
      → length prefix ≡ 4
      → max_encrypted_response_frame < uint32 prefix
      → Ended w oversized_frame d

-- The part of the prefix that is still to be given.
abbrev pub held_of : ℕ → ℕ → Bytes → Bytes
held_of zero offset header = []
held_of (suc n) offset header = drop offset header

-- Between frames the prefix is given in full, or there was none.
abbrev pub Placed : ℕ → ℕ → Type 0
Placed zero offset = (offset ≡ 0) ⊎ (offset ≡ 4)
Placed (suc n) offset = offset ≤ 4

module _ {S : Type 0} where
  module _ (pending : S → Bytes) where
    pub record Invariant (w : Bytes) (g : FrameGuard S) (d : Bytes) : Type 0 where
      pub taken : Bytes
      pub source : w ≡ taken ++ pending g.body
      pub given : taken ≡ d ++ held_of g.frame_remaining g.header_offset g.header
      pub framed : Framed taken g.frame_remaining
      pub bounded : g.frame_remaining ≤ max_encrypted_response_frame
      pub four : length g.header ≡ 4
      pub placed : Placed g.frame_remaining g.header_offset
      pub no_error : g.pending_error ≡ none
      pub not_over : g.eof ≡ false

    pub data State (w : Bytes) (g : FrameGuard S) (d : Bytes) : Type 0 where
      running : Invariant w g d → State w g d
      kept : (e : GuardError) → g.pending_error ≡ some e → Ended w e d → State w g d
      over : g.pending_error ≡ none → g.eof ≡ true → Ended w (source end_of_file) d → State w g d

    abbrev pub ReadIs : Bytes → Bytes → Option GuardError → FrameGuard S → Type 0
    ReadIs w d none g = State w g d
    ReadIs w d (some e) g = Ended w e d

    -- `before` is what earlier calls gave.
    abbrev pub TurnIs : Bytes → Bytes → Turn S → Type 0
    TurnIs w before (again out g) = Invariant w g (before ++ out)
    TurnIs w before (back out e g) = ReadIs w (before ++ out) e g
