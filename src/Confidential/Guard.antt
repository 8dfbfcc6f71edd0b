-- ===== src/Confidential/Guard.antt =====
-- internal/confidential/frame_guard.go: frameGuardReader, which checks the EHBP framing of a
-- response before it is decrypted. The response's body is a parameter, `read`: what it answers to
-- a call of Read that asks for at most so many bytes. The loop of Read and that of io.ReadFull run
-- on fuel, since a body may answer zero bytes and no error; `none` is fuel that ran out.
pub mod Frames
pub mod Invariants
pub mod Pass
pub mod Reader
pub mod Drain
pub mod Fuel
pub mod Problem
use dappnode_nexus_sdk.Prelude.{
  ℕ, zero, suc, ◌+◌, ◌-◌, ◌*◌, ◌%◌, min, Bool, true, false, ◌&&◌, ◌||◌, Option, none, some, List,
  [], ◌∷◌, ◌++◌, ltb, ◌==◌, if◌then◌else◌, length, take, drop, is_empty,
}
use dappnode_nexus_sdk.Prelude.Bytes.{Bytes}

-- io.EOF, or another error of the body.
pub data SourceError : Type 0 where
  end_of_file : SourceError
  failed : Bytes → SourceError

pub data GuardError : Type 0 where
  source : SourceError → GuardError
  truncated_prefix truncated_ciphertext zero_frame oversized_frame : GuardError

-- What one call of Read gives: the bytes, the error, and the body after it.
pub record Reply (S : Type 0) : Type 0 where
  pub bytes : Bytes
  pub error : Option SourceError
  pub rest : S

pub record FrameGuard (S : Type 0) : Type 0 where
  pub body : S
  pub header : Bytes
  pub header_offset : ℕ
  pub frame_remaining : ℕ
  pub pending_error : Option GuardError
  pub eof : Bool

-- One pass of the loop goes on with the bytes written so far, or returns.
pub data Turn (S : Type 0) : Type 0 where
  again : Bytes → FrameGuard S → Turn S
  back : Bytes → Option GuardError → FrameGuard S → Turn S

abbrev pub max_encrypted_response_frame : ℕ
max_encrypted_response_frame = 67108864

-- The zero value of the header's array.
abbrev pub no_header : Bytes
no_header = 0 ∷ 0 ∷ 0 ∷ 0 ∷ []

-- binary.BigEndian.Uint32
unfoldable pub uint32 : Bytes → ℕ
uint32 (a ∷ b ∷ c ∷ d ∷ _) = ((a * 256 + b) * 256 + c) * 256 + d
uint32 _ = 0

-- Subtraction on uint32.
unfoldable pub sub32 : ℕ → ℕ → ℕ
sub32 a b = (a + (4294967296 - b % 4294967296)) % 4294967296

abbrev pub is_eof : SourceError → Bool
is_eof end_of_file = true
is_eof (failed _) = false

abbrev pub ciphertext_error : SourceError → ℕ → GuardError
ciphertext_error e remaining =
    if is_eof e && ltb 0 remaining then truncated_ciphertext else source e

abbrev pub drain_then :
    Bytes → Option (Bytes × Option GuardError) → Option (Bytes × Option GuardError)
drain_then out none = none
drain_then out (some (more, e)) = some (out ++ more, e)

module _ {S : Type 0} where
  -- GuardEHBPResponses puts this around the body.
  abbrev pub frame_guard : S → FrameGuard S
  frame_guard body = record {
    body = body;
    header = no_header;
    header_offset = 0;
    frame_remaining = 0;
    pending_error = none;
    eof = false;
  }

  -- A result that has bytes goes first; its error is kept for the next call.
  abbrev pub back_or_keep : Bytes → GuardError → FrameGuard S → Turn S
  back_or_keep [] e g = back [] (some e) g
  back_or_keep (x ∷ xs) e g = back (x ∷ xs) none (record g { pending_error = some e })

  -- Lines 128 to 136: what is left of the frame's prefix.
  unfoldable pub copy_header : ℕ → Bytes → FrameGuard S → Turn S
  copy_header size out g =
      let chunk = take (size - length out) (drop g.header_offset g.header) in
      let g' = record g { header_offset = g.header_offset + length chunk } in
      if length (out ++ chunk) == size then back (out ++ chunk) none g' else again (out ++ chunk) g'

  -- The array is cleared when a frame is complete.
  abbrev pub close_frame : Bytes → FrameGuard S → FrameGuard S
  close_frame [] g = g
  close_frame (x ∷ xs) g =
      if g.frame_remaining == 0 then record g { header_offset = 0; header = no_header } else g

  abbrev pub after_body : Bytes → FrameGuard S → Bytes → Option SourceError → Turn S
  after_body out g bytes none = again (out ++ bytes) (close_frame bytes g)
  after_body out g bytes (some e) =
      back_or_keep (out ++ bytes) (ciphertext_error e g.frame_remaining) g

  abbrev pub took : FrameGuard S → Reply S → FrameGuard S
  took g r = record g { body = r.rest; frame_remaining = sub32 g.frame_remaining (length r.bytes) }

  abbrev pub after_prefix : Bytes → FrameGuard S → Turn S
  after_prefix out g =
      if uint32 g.header == 0
      then back out (some zero_frame) g
      else if ltb max_encrypted_response_frame (uint32 g.header)
      then back out (some oversized_frame) g
      else again out (record g { frame_remaining = uint32 g.header; header_offset = 0 })

  abbrev pub prefix_error : Bytes → FrameGuard S → Bytes → SourceError → Turn S
  prefix_error out g got e =
      if is_eof e && is_empty got
      then (if is_empty out
          then back [] (some (source end_of_file)) (record g { eof = true })
          else back out none (record g { eof = true }))
      else back_or_keep out truncated_prefix g

  -- The bytes that were read overwrite the front of the array.
  abbrev pub filled : FrameGuard S → Reply S → FrameGuard S
  filled g r = record g { body = r.rest; header = r.bytes ++ drop (length r.bytes) g.header }

  abbrev pub with_prefix : Bytes → FrameGuard S → Bytes → Option SourceError → Turn S
  with_prefix out g got none = after_prefix out g
  with_prefix out g got (some e) = prefix_error out g got e

  abbrev pub map_turn : Option (Reply S) → (Reply S → Turn S) → Option (Turn S)
  map_turn none f = none
  map_turn (some r) f = some (f r)

  -- The error of io.ReadFull is only tested for io.EOF with no byte read.
  abbrev pub prepend : Bytes → Option (Reply S) → Option (Reply S)
  prepend got none = none
  prepend got (some r) = some (record r { bytes = got ++ r.bytes })

  abbrev pub read_more :
      (ℕ → S → Option (Reply S)) → ℕ → Bytes → S → Option SourceError → Option (Reply S)
  read_more next n bytes s none = prepend bytes (next (n - length bytes) s)
  read_more next n bytes s (some e) =
      some
        (record { bytes = bytes; error = if ltb (length bytes) n then some e else none; rest = s })

  abbrev pub after_turn :
      (Bytes → FrameGuard S → Option (Bytes × Option GuardError × FrameGuard S))
      → Option (Turn S)
      → Option (Bytes × Option GuardError × FrameGuard S)
  after_turn next none = none
  after_turn next (some (again out g)) = next out g
  after_turn next (some (back out e g)) = some (out, e, g)

  abbrev pub drain_after :
      (FrameGuard S → Option (Bytes × Option GuardError))
      → Option (Bytes × Option GuardError × FrameGuard S)
      → Option (Bytes × Option GuardError)
  drain_after next none = none
  drain_after next (some (out, some e, g)) = some (out, some e)
  drain_after next (some (out, none, g)) = drain_then out (next g)

  module _ (read : ℕ → S → Reply S) where
    -- io.ReadFull: a full read has no error.
    unfoldable pub read_full : ℕ → ℕ → S → Option (Reply S)
    read_full fuel zero s = some (record { bytes = []; error = none; rest = s })
    read_full zero (suc n) s = none
    read_full (suc fuel) (suc n) s =
        let r = read (suc n) s in read_more (read_full fuel) (suc n) r.bytes r.rest r.error

    -- Lines 138 to 161
    unfoldable pub read_body : ℕ → Bytes → FrameGuard S → Turn S
    read_body size out g =
        let r = read (min (size - length out) g.frame_remaining) g.body in
        after_body out (took g r) r.bytes r.error

    -- Lines 163 to 187
    unfoldable pub read_prefix : ℕ → Bytes → FrameGuard S → Option (Turn S)
    read_prefix fuel out g =
        map_turn (read_full fuel 4 g.body) (λ r. with_prefix out (filled g r) r.bytes r.error)

    unfoldable pub turn : ℕ → ℕ → Bytes → FrameGuard S → Option (Turn S)
    turn fuel size out g =
        if ltb g.header_offset 4 && (ltb 0 g.header_offset || ltb 0 g.frame_remaining)
        then some (copy_header size out g)
        else if ltb 0 g.frame_remaining
        then some (read_body size out g)
        else read_prefix fuel out g

    -- The loop while bytes are wanted: the bytes that Read returns, its error, and the state.
    unfoldable pub read_loop :
        ℕ → ℕ → Bytes → FrameGuard S → Option (Bytes × Option GuardError × FrameGuard S)
    read_loop zero size out g = none
    read_loop (suc fuel) size out g = elim (ltb (length out) size) [
      | true ↦ after_turn (read_loop fuel size) (turn fuel size out g)
      | false ↦ some (out, none, g)
    ]

    abbrev pub read_after :
        ℕ
        → ℕ
        → FrameGuard S
        → Option GuardError
        → Bool
        → Option (Bytes × Option GuardError × FrameGuard S)
    read_after fuel size g (some e) over = some ([], some e, record g { pending_error = none })
    read_after fuel size g none true = some ([], some (source end_of_file), g)
    read_after fuel size g none false = read_loop fuel size [] g

    -- frameGuardReader.Read with a destination of that size.
    unfoldable pub guard_read :
        ℕ → ℕ → FrameGuard S → Option (Bytes × Option GuardError × FrameGuard S)
    guard_read fuel zero g = some ([], none, g)
    guard_read fuel (suc size) g = read_after fuel (suc size) g g.pending_error g.eof

    -- A reader of the guard: it calls Read with these sizes, up to the first error.
    unfoldable pub drain : ℕ → List ℕ → FrameGuard S → Option (Bytes × Option GuardError)
    drain fuel [] g = some ([], none)
    drain fuel (n ∷ ns) g = drain_after (drain fuel ns) (guard_read fuel n g)
