-- ===== src/Confidential/Guard/Problem/Limit.antt =====
-- internal/confidential/frame_guard.go: how much of a problem document is read.
use dappnode_nexus_sdk.Prelude.{
  ℕ, ◌+◌, ◌-◌, ◌≤◌, min, true, Option, none, some, List, [], ◌∷◌, ◌++◌, ◌≡◌, refl, ap, ◌∙◌, sym,
  ◌≢◌, append-nil, append_assoc, arith, length, length-append, ltb, Bool-cases, inl, inr,
}
use mathlib.Core.Path.{subst}
use dappnode_nexus_sdk.Prelude.Bytes.{Bytes}
use dappnode_nexus_sdk.Confidential.Guard.{SourceError, end_of_file, failed, Reply}
use dappnode_nexus_sdk.Confidential.Guard.Reader.{Reads, EndsRight}
use dappnode_nexus_sdk.Confidential.Guard.Problem.{
  BoundedReader, BoundedError, source, too_long, bounded_reader, probed, from_source, read_front,
  bounded_read, drain_bounded_after, drain_bounded, max_problem_response_body,
}

-- What calls of Read give of `w`: no more than the bound, and all of it if they end in io.EOF.
pub data Bounded (w : Bytes) : Option BoundedError → Bytes → Type 0 where
  all_of_it :
      (d : Bytes)
      → w ≡ d
      → length d ≤ max_problem_response_body
      → Bounded w (some (source end_of_file)) d
  so_far :
      (d rest : Bytes) (e : Option BoundedError)
      → w ≡ d ++ rest
      → length d ≤ max_problem_response_body
      → e ≢ some (source end_of_file)
      → Bounded w e d

module _ {S : Type 0} (read : ℕ → S → Reply S) (pending : S → Bytes)
    (laws : Reads read pending) where
  record Within (w : Bytes) (b : BoundedReader S) (d : Bytes) : Type 0 where
    front : w ≡ d ++ pending b.source
    fits : length d + b.remaining ≡ max_problem_response_body

  abbrev StepIs : Bytes → Bytes → Bytes × Option BoundedError × BoundedReader S → Type 0
  StepIs w d (out, none, b) = Within w b (d ++ out)
  StepIs w d (out, some e, b) = Bounded w (some e) (d ++ out)

  from_source-StepIs :
      (w d out : Bytes) (e : Option SourceError) (b : BoundedReader S)
      → Within w b (d ++ out)
      → EndsRight e (pending b.source)
      → StepIs w d (out, from_source e, b)
  from_source-StepIs w d out none b h t = h
  from_source-StepIs w d out (some end_of_file) b h t =
      all_of_it (d ++ out) (h.front ∙ rw t (append-nil (d ++ out))) (omega (arith, h.fits))
  from_source-StepIs w d out (some (failed x)) b h t =
      so_far (d ++ out) (pending b.source) (some (source (failed x))) h.front
        (omega (arith, h.fits)) (λ e. absurd (cc))

  read_front-StepIs :
      (w d : Bytes) (size : ℕ) (b : BoundedReader S)
      → Within w b d
      → StepIs w d (read_front read size b)
  read_front-StepIs w d size b h =
      let n = min size b.remaining in
      let r = read n b.source in
      from_source-StepIs w d r.bytes r.error
        (record b { source = r.rest; remaining = b.remaining - length r.bytes })
        (record {
          front =
              h.front
              ∙ (ap (◌++◌ d) (laws.in_order n b.source)
                  ∙ sym (append_assoc d r.bytes (pending r.rest)));
          fits = omega (arith, length-append d r.bytes, laws.at_most n b.source, h.fits);
        })
        (laws.ends_right n b.source)

  probed-StepIs :
      (w d xs : Bytes) (e : Option SourceError) (b b' : BoundedReader S)
      → Within w b d
      → b'.remaining ≡ b.remaining
      → pending b.source ≡ xs ++ pending b'.source
      → EndsRight e (pending b'.source)
      → StepIs w d ([], probed xs e, b')
  probed-StepIs w d [] e b b' h k p t =
      from_source-StepIs w d [] e b'
        (record {
          front = h.front ∙ (ap (◌++◌ d) p ∙ ap (λ x. x ++ pending b'.source) (sym (append-nil d)));
          fits = omega (arith, h.fits, k, length-append d []);
        })
        t
  probed-StepIs w d (x ∷ xs) e b b' h k p t =
      so_far (d ++ []) (x ∷ xs ++ pending b'.source) (some too_long)
        (h.front ∙ rw (append-nil d) (ap (◌++◌ d) p)) (omega (arith, h.fits, length-append d []))
        (λ e. absurd (cc))

  bounded_read-StepIs :
      (w d : Bytes) (size : ℕ) (b : BoundedReader S)
      → Within w b d
      → StepIs w d (bounded_read read size b)
  unfolding bounded_read
  bounded_read-StepIs w d size b h = elim (Bool-cases (ltb 0 b.remaining)) [
    | inl t ↦ rw t (read_front-StepIs w d size b h)
    | inr t ↦ rw t (elim (Bool-cases b.checked) [
      | inl u ↦ rw u (
          so_far (d ++ []) (pending b.source) (some too_long)
            (h.front ∙ ap (λ x. x ++ pending b.source) (sym (append-nil d)))
            (omega (arith, h.fits, length-append d [])) (λ e. absurd (cc)))
      | inr u ↦
          let r = read 1 b.source in
          rw u (
            probed-StepIs w d r.bytes r.error b (record b { source = r.rest; checked = true }) h
              refl (laws.in_order 1 b.source) (laws.ends_right 1 b.source))
    ])
  ]

  DrainedIs : Bytes → Bytes → Bytes × Option BoundedError → Type 0
  DrainedIs w d (out, e) = Bounded w e (d ++ out)

  after-DrainedIs :
      (w d : Bytes) (next : BoundedReader S → Bytes × Option BoundedError)
      (o : Bytes × Option BoundedError × BoundedReader S)
      → ((x : Bytes) (b : BoundedReader S) → Within w b x → DrainedIs w x (next b))
      → StepIs w d o
      → DrainedIs w d (drain_bounded_after next o)
  unfolding DrainedIs
  after-DrainedIs w d next (out, none, b) ih h =
      subst (Bounded w (next b).1) (append_assoc d out (next b).0) (ih (d ++ out) b h)
  after-DrainedIs w d next (out, some e, b) ih h = h

  drain-DrainedIs :
      (ns : List ℕ) (w d : Bytes) (b : BoundedReader S)
      → Within w b d
      → DrainedIs w d (drain_bounded read ns b)
  unfolding DrainedIs drain_bounded
  drain-DrainedIs [] w d b h =
      so_far (d ++ []) (pending b.source) none
        (h.front ∙ ap (λ x. x ++ pending b.source) (sym (append-nil d)))
        (omega (arith, h.fits, length-append d [])) (λ e. absurd (cc))
  drain-DrainedIs (n ∷ ns) w d b h =
      after-DrainedIs w d (drain_bounded read ns) (bounded_read read n b)
        (λ x b' k. drain-DrainedIs ns w x b' k) (bounded_read-StepIs w d n b h)

  -- Calls of Read on a bounded problem document give at most 65536 bytes of it, in order; if they
  -- end in io.EOF, they gave all of it.
  pub drain_bounded-Bounded :
      (ns : List ℕ) (s : S)
      → Bounded
          (pending s)
          (drain_bounded read ns (bounded_reader s)).1
          (drain_bounded read ns (bounded_reader s)).0
  unfolding DrainedIs
  drain_bounded-Bounded ns s =
      drain-DrainedIs ns (pending s) [] (bounded_reader s) (record { front = refl; fits = refl })
