-- ===== src/Confidential/Guard/Frames.antt =====
-- The EHBP framing of internal/confidential/frame_guard.go, stated without its reader: a frame is
-- a length in four bytes and as many bytes, at least one and at most 64 MiB.
use dappnode_nexus_sdk.Prelude.{
  ℕ, zero, ◌+◌, ◌≤◌, ◌≡◌, refl, sym, [], ◌++◌, arith, length, length-append, append-nil,
  append_assoc,
}
use dappnode_nexus_sdk.Prelude.Bytes.{Bytes}
use mathlib.Core.Path.{subst}
use dappnode_nexus_sdk.Confidential.Guard.{uint32, max_encrypted_response_frame}

-- The four bytes of an admitted length.
pub record IsPrefix (prefix : Bytes) : Type 0 where
  pub four : length prefix ≡ 4
  pub positive : 1 ≤ uint32 prefix
  pub bounded : uint32 prefix ≤ max_encrypted_response_frame

pub data AreFrames : Bytes → Type 0 where
  no_frame : AreFrames []
  frame :
      (prefix ciphertext rest : Bytes)
      → IsPrefix prefix
      → length ciphertext ≡ uint32 prefix
      → AreFrames rest
      → AreFrames ((prefix ++ ciphertext) ++ rest)

-- A frame of which `n` bytes of the ciphertext are missing, or no frame at all.
pub data Partly : Bytes → ℕ → Type 0 where
  between : Partly [] 0
  within :
      (xs prefix ciphertext : Bytes) (n : ℕ)
      → xs ≡ prefix ++ ciphertext
      → IsPrefix prefix
      → uint32 prefix ≡ length ciphertext + n
      → Partly xs n

-- Whole frames, and then a frame of which `n` bytes are missing.
pub record Framed (xs : Bytes) (n : ℕ) : Type 0 where
  pub whole : Bytes
  pub part : Bytes
  pub splits : xs ≡ whole ++ part
  pub frames : AreFrames whole
  pub partly : Partly part n

AreFrames-append : (xs ys : Bytes) → AreFrames xs → AreFrames ys → AreFrames (xs ++ ys)
AreFrames-append xs ys no_frame hy = hy
AreFrames-append xs ys (frame p c rest hp hc hr) hy =
    subst AreFrames (sym (append_assoc (p ++ c) rest ys))
      (frame p c (rest ++ ys) hp hc (AreFrames-append rest ys hr hy))

one_frame : (p c : Bytes) → IsPrefix p → length c ≡ uint32 p → AreFrames (p ++ c)
one_frame p c hp hc = subst AreFrames (append-nil (p ++ c)) (frame p c [] hp hc no_frame)

Partly-AreFrames : (xs : Bytes) → Partly xs 0 → AreFrames xs
Partly-AreFrames xs between = no_frame
Partly-AreFrames xs (within _ p c zero e hp hn) =
    subst AreFrames (sym e) (one_frame p c hp (omega arith))

pub Framed-AreFrames : (xs : Bytes) → Framed xs 0 → AreFrames xs
Framed-AreFrames xs h =
    subst AreFrames (sym h.splits)
      (AreFrames-append h.whole h.part h.frames (Partly-AreFrames h.part h.partly))

pub AreFrames-Framed : (xs : Bytes) → AreFrames xs → Framed xs 0
AreFrames-Framed xs h = record {
  whole = xs;
  part = [];
  splits = sym (append-nil xs);
  frames = h;
  partly = between;
}

-- The next prefix, after whole frames.
pub Framed-prefix : (xs p : Bytes) → Framed xs 0 → IsPrefix p → Framed (xs ++ p) (uint32 p)
Framed-prefix xs p h hp = record {
  whole = xs;
  part = p;
  splits = refl;
  frames = Framed-AreFrames xs h;
  partly = within p p [] (uint32 p) (sym (append-nil p)) hp (omega arith);
}

Partly-more : (xs c : Bytes) (m n : ℕ) → m ≡ length c + n → 1 ≤ m → Partly xs m → Partly (xs ++ c) n
Partly-more xs c m n e h between = absurd (omega arith)
Partly-more xs c m n e h (within _ p d _ exs hp hm) =
    within (xs ++ c) p (d ++ c) n (rw exs (append_assoc p d c)) hp
      (omega (arith, length-append d c))

-- More of a frame's ciphertext.
pub Framed-more :
    (xs c : Bytes) (m n : ℕ) → m ≡ length c + n → 1 ≤ m → Framed xs m → Framed (xs ++ c) n
Framed-more xs c m n e h f = record {
  whole = f.whole;
  part = f.part ++ c;
  splits = rw f.splits (append_assoc f.whole f.part c);
  frames = f.frames;
  partly = Partly-more f.part c m n e h f.partly;
}
