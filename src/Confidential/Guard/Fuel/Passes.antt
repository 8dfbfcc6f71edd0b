-- ===== src/Confidential/Guard/Fuel/Passes.antt =====
-- internal/confidential/frame_guard.go: every pass of the loop leaves less to do.
use dappnode_nexus_sdk.Prelude.{
  ℕ, zero, suc, ◌+◌, ◌-◌, ◌*◌, min, ◌≤◌, ◌<◌, ◌≡◌, refl, Option, none, some, [], ◌∷◌, ◌++◌, arith,
  length, length-append, length-take, length-drop, true, false, Bool-cases, inl, inr, ltb, ◌==◌,
  take, drop, is_empty, ◌&&◌, ap, if◌then◌else◌,
}
use dappnode_nexus_sdk.Prelude.Bytes.{Bytes}
use dappnode_nexus_sdk.Confidential.Guard.{
  SourceError, Reply, FrameGuard, Turn, again, back, GuardError, uint32, prepend, copy_header,
  close_frame, after_body, after_prefix, with_prefix, prefix_error, back_or_keep, filled, map_turn,
  is_eof, max_encrypted_response_frame, ciphertext_error, truncated_prefix,
}
use dappnode_nexus_sdk.Confidential.Guard.Invariants.{Placed}
use dappnode_nexus_sdk.Confidential.Guard.Pass.Copied.{to_copy}

past_header : (a n : ℕ) → 4 ≤ a → to_copy a n ≡ false
past_header a n h = ground arith

short :
    (a b c n size : ℕ)
    → (a == size) ≡ false
    → a ≡ b + c
    → c ≡ min (size - b) n
    → b < size
    → c < size - b
short a b c n size t e m h = ground arith

copies_frame : (n offset : ℕ) → to_copy offset n ≡ true → Placed n offset → (n == 0) ≡ false
copies_frame zero offset t (inl e) = absurd (ground arith)
copies_frame zero offset t (inr e) = absurd (ground arith)
copies_frame (suc n) offset t p = ground arith

copied_all :
    (room offset n : ℕ) (header : Bytes)
    → length header ≡ 4
    → length (take room (drop offset header)) < room
    → to_copy (offset + length (take room (drop offset header))) n ≡ false
copied_all room offset n header h k =
    let far : 4 ≤ offset + length (take room (drop offset header)) =
      omega (arith, length-take room (drop offset header), length-drop offset header) in
    past_header _ n far

module _ {S : Type 0} where
  -- A call that asks for bytes and gives no error leaves fewer such calls.
  pub record Answers (read : ℕ → S → Reply S) (calls : S → ℕ) : Type 0 where
    pub fewer : (n : ℕ) (s : S) → 1 ≤ n → (read n s).error ≡ none → calls (read n s).rest < calls s
    pub no_more : (n : ℕ) (s : S) → calls (read n s).rest ≤ calls s

  module _ (calls : S → ℕ) where
    -- io.ReadFull came to an end.
    abbrev pub FullSpent : S → Option (Reply S) → Type 0
    FullSpent s none = ⊥
    FullSpent s (some r) = calls r.rest ≤ calls s

    pub prepend-FullSpent :
        (s s' : S) (xs : Bytes) (o : Option (Reply S))
        → calls s' ≤ calls s
        → FullSpent s' o
        → FullSpent s (prepend xs o)
    prepend-FullSpent s s' xs none h k = k
    prepend-FullSpent s s' xs (some r) h k = omega arith

    -- Between frames, before the ciphertext of a frame, and in it.
    abbrev phase : FrameGuard S → ℕ
    phase g =
        if to_copy g.header_offset g.frame_remaining
        then 1
        else if g.frame_remaining == 0
        then 2
        else 0

    -- How many passes are left, at most.
    abbrev pub passes : FrameGuard S → ℕ
    passes g = phase g + 3 * calls g.body + 1

    pub phase_le : (g : FrameGuard S) → phase g ≤ 2
    phase_le g = elim (Bool-cases (to_copy g.header_offset g.frame_remaining)) [
      | inl t ↦ rw t (omega arith)
      | inr t ↦ rw t (elim (Bool-cases (g.frame_remaining == 0)) [
        | inl u ↦ rw u (omega arith)
        | inr u ↦ rw u (omega arith)
      ])
    ]

    -- A pass ends, and the next has less to do.
    abbrev pub TurnSpent : FrameGuard S → Option (Turn S) → Type 0
    TurnSpent g none = ⊥
    TurnSpent g (some (again out g')) = passes g' < passes g
    TurnSpent g (some (back out e g')) = calls g'.body ≤ calls g.body

    abbrev pub LoopSpent : FrameGuard S → Option (Bytes × Option GuardError × FrameGuard S) → Type 0
    LoopSpent g none = ⊥
    LoopSpent g (some (out, e, g')) = calls g'.body ≤ calls g.body

    back_or_keep-TurnSpent :
        (g g' : FrameGuard S) (out : Bytes) (e : GuardError)
        → calls g'.body ≤ calls g.body
        → TurnSpent g (some (back_or_keep out e g'))
    back_or_keep-TurnSpent g g' [] e h = h
    back_or_keep-TurnSpent g g' (x ∷ xs) e h = h

    -- A pass that read from the body without an error.
    passes_lt : (g g' : FrameGuard S) → calls g'.body < calls g.body → passes g' < passes g
    passes_lt g g' h = omega (arith, phase_le g')

    close_frame_body : (xs : Bytes) (g : FrameGuard S) → (close_frame xs g).body ≡ g.body
    close_frame_body [] g = refl
    close_frame_body (x ∷ xs) g = elim (Bool-cases (g.frame_remaining == 0)) [
      | inl t ↦ rw t refl
      | inr t ↦ rw t refl
    ]

    copied_lt :
        (g : FrameGuard S) (room : ℕ)
        → to_copy g.header_offset g.frame_remaining ≡ true
        → length g.header ≡ 4
        → Placed g.frame_remaining g.header_offset
        → length (take room (drop g.header_offset g.header)) < room
        → passes (record g {
          header_offset = g.header_offset + length (take room (drop g.header_offset g.header));
        })
          < passes g
    copied_lt g room t l p h =
        rw
          (
            t,
            copied_all room g.header_offset g.frame_remaining g.header l h,
            copies_frame g.frame_remaining g.header_offset t p,
          )
          (omega arith)

    pub copy_header-TurnSpent :
        (g : FrameGuard S) (size : ℕ) (out : Bytes)
        → length out < size
        → length g.header ≡ 4
        → Placed g.frame_remaining g.header_offset
        → to_copy g.header_offset g.frame_remaining ≡ true
        → TurnSpent g (some (copy_header size out g))
    unfolding copy_header
    copy_header-TurnSpent g size out h l p t =
        let chunk = take (size - length out) (drop g.header_offset g.header) in
        elim (Bool-cases (length (out ++ chunk) == size)) [
          | inl u ↦ rw (u, TurnSpent) (omega arith)
          | inr u ↦
              rw (u, TurnSpent)
                (copied_lt g (size - length out) t l p
                  (short _ _ _ _ size u (length-append out chunk) (length-take _ _) h))
        ]

    pub after_body-TurnSpent :
        (g g' : FrameGuard S) (out xs : Bytes) (e : Option SourceError)
        → calls g'.body ≤ calls g.body
        → (e ≡ none → calls g'.body < calls g.body)
        → TurnSpent g (some (after_body out g' xs e))
    after_body-TurnSpent g g' out xs none h k =
        passes_lt g (close_frame xs g') (omega (arith, ap calls (close_frame_body xs g'), k refl))
    after_body-TurnSpent g g' out xs (some e) h k =
        back_or_keep-TurnSpent g g' (out ++ xs) (ciphertext_error e g'.frame_remaining) h

    -- Between two frames; `g'` is `g` with the prefix read.
    prefix_lt :
        (g g' : FrameGuard S)
        → calls g'.body ≤ calls g.body
        → to_copy g.header_offset g.frame_remaining ≡ false
        → (g.frame_remaining == 0) ≡ true
        → (uint32 g'.header == 0) ≡ false
        → passes (record g' { frame_remaining = uint32 g'.header; header_offset = 0 }) < passes g
    prefix_lt g g' h t z u =
        let c : to_copy 0 (uint32 g'.header) ≡ true = ground arith in rw (c, t, z) (omega arith)

    after_prefix-TurnSpent :
        (g g' : FrameGuard S) (out : Bytes)
        → calls g'.body ≤ calls g.body
        → to_copy g.header_offset g.frame_remaining ≡ false
        → (g.frame_remaining == 0) ≡ true
        → TurnSpent g (some (after_prefix out g'))
    after_prefix-TurnSpent g g' out h c z = elim (Bool-cases (uint32 g'.header == 0)) [
      | inl t ↦ rw (t, TurnSpent) h
      | inr t ↦
          rw (t, TurnSpent)
            (elim (Bool-cases (ltb max_encrypted_response_frame (uint32 g'.header))) [
              | inl u ↦ rw (u, TurnSpent) h
              | inr u ↦ rw (u, TurnSpent) (prefix_lt g g' h c z t)
            ])
    ]

    prefix_error-TurnSpent :
        (g g' : FrameGuard S) (out got : Bytes) (e : SourceError)
        → calls g'.body ≤ calls g.body
        → TurnSpent g (some (prefix_error out g' got e))
    prefix_error-TurnSpent g g' out got e h = elim (Bool-cases (is_eof e && is_empty got)) [
      | inl t ↦
          rw (t, TurnSpent)
            (elim (Bool-cases (is_empty out)) [
              | inl u ↦ rw (u, TurnSpent) h
              | inr u ↦ rw (u, TurnSpent) h
            ])
      | inr t ↦ rw (t, TurnSpent) (back_or_keep-TurnSpent g g' out truncated_prefix h)
    ]

    with_prefix-TurnSpent :
        (g g' : FrameGuard S) (out got : Bytes) (e : Option SourceError)
        → calls g'.body ≤ calls g.body
        → to_copy g.header_offset g.frame_remaining ≡ false
        → (g.frame_remaining == 0) ≡ true
        → TurnSpent g (some (with_prefix out g' got e))
    with_prefix-TurnSpent g g' out got none h c z = after_prefix-TurnSpent g g' out h c z
    with_prefix-TurnSpent g g' out got (some e) h c z = prefix_error-TurnSpent g g' out got e h

    pub map_turn-TurnSpent :
        (g : FrameGuard S) (out : Bytes) (o : Option (Reply S))
        → FullSpent g.body o
        → to_copy g.header_offset g.frame_remaining ≡ false
        → (g.frame_remaining == 0) ≡ true
        → TurnSpent g (map_turn o (λ r. with_prefix out (filled g r) r.bytes r.error))
    map_turn-TurnSpent g out none h c z = h
    map_turn-TurnSpent g out (some r) h c z =
        with_prefix-TurnSpent g (filled g r) out r.bytes r.error h c z
