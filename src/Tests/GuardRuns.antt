-- ===== src/Tests/GuardRuns.antt =====
-- Runs of the EHBP frame guard on a body that comes in chunks.
use dappnode_nexus_sdk.Prelude.{
  ℕ, suc, ◌+◌, ◌≤◌, ◌<◌, ◌≡◌, refl, sym, ap, ◌∙◌, Bool, true, false, none, some, List, [], ◌∷◌,
  ◌++◌, leb, length, take, drop, length-take, length-drop, take-append-drop, append_assoc,
  Bool-cases, inl, inr, arith, leb→le,
}
use dappnode_nexus_sdk.Prelude.Bytes.{Bytes}
use dappnode_nexus_sdk.Confidential.Guard.{end_of_file, Reply, frame_guard, drain}
use dappnode_nexus_sdk.Confidential.Guard.Reader.{Reads, EndsRight}
use dappnode_nexus_sdk.Confidential.Guard.Fuel.{Returns, drain-Returns}
use dappnode_nexus_sdk.Confidential.Guard.Fuel.Passes.{Answers}
use dappnode_nexus_sdk.Confidential.Guard.Problem.{bounded_reader, drain_bounded}
use dappnode_nexus_sdk.Confidential.Guard.Problem.Limit.{Bounded, drain_bounded-Bounded}

abbrev Chunks : Type 0
Chunks = List Bytes

abbrev chunk : ℕ → Bytes → Chunks → Bool → Reply Chunks
chunk n c cs true = record { bytes = c; error = none; rest = cs }
chunk n c cs false = record { bytes = take n c; error = none; rest = drop n c ∷ cs }

-- A call gives a chunk or as much of it as was asked for.
read : ℕ → Chunks → Reply Chunks
read n [] = record { bytes = []; error = some end_of_file; rest = [] }
read n (c ∷ cs) = chunk n c cs (leb (length c) n)

joined : Chunks → Bytes
joined [] = []
joined (c ∷ cs) = c ++ joined cs

abbrev calls : Chunks → ℕ
calls [] = 0
calls (c ∷ cs) = suc (length c) + calls cs

chunk_at_most : (n : ℕ) (c : Bytes) (cs : Chunks) → length (read n (c ∷ cs)).bytes ≤ n
unfolding read
chunk_at_most n c cs = elim (Bool-cases (leb (length c) n)) [
  | inl t ↦ rw t (leb→le (length c) n t)
  | inr t ↦ rw t (omega (arith, length-take n c))
]

read_at_most : (n : ℕ) (s : Chunks) → length (read n s).bytes ≤ n
unfolding read
read_at_most n [] = omega arith
read_at_most n (c ∷ cs) = chunk_at_most n c cs

read_in_order : (n : ℕ) (s : Chunks) → joined s ≡ (read n s).bytes ++ joined (read n s).rest
unfolding read joined
read_in_order n [] = refl
read_in_order n (c ∷ cs) = elim (Bool-cases (leb (length c) n)) [
  | inl t ↦ rw t refl
  | inr t ↦ rw t (
      ap (λ x. x ++ joined cs) (sym (take-append-drop n c))
      ∙ append_assoc (take n c) (drop n c) (joined cs))
]

read-EndsRight : (n : ℕ) (s : Chunks) → EndsRight (read n s).error (joined (read n s).rest)
unfolding read joined
read-EndsRight n [] = refl
read-EndsRight n (c ∷ cs) = elim (Bool-cases (leb (length c) n)) [
  | inl t ↦ rw t tt
  | inr t ↦ rw t tt
]

reads : Reads read joined
reads = record { at_most = read_at_most; in_order = read_in_order; ends_right = read-EndsRight }

read_fewer :
    (n : ℕ) (s : Chunks) → 1 ≤ n → (read n s).error ≡ none → calls (read n s).rest < calls s
unfolding read
read_fewer n [] h e = absurd (cc)
read_fewer n (c ∷ cs) h e = elim (Bool-cases (leb (length c) n)) [
  | inl t ↦ rw t (omega arith)
  | inr t ↦ rw t (ground (arith, length-drop n c))
]

read_no_more : (n : ℕ) (s : Chunks) → calls (read n s).rest ≤ calls s
unfolding read
read_no_more n [] = omega arith
read_no_more n (c ∷ cs) = elim (Bool-cases (leb (length c) n)) [
  | inl t ↦ rw t (omega arith)
  | inr t ↦ rw t (omega (arith, length-drop n c))
]

answers : Answers read calls
answers = record { fewer = read_fewer; no_more = read_no_more }

-- A frame of two bytes in three chunks.
abbrev two_bytes : Chunks
two_bytes = (0 ∷ 0 ∷ []) ∷ (0 ∷ 2 ∷ 7 ∷ []) ∷ (8 ∷ []) ∷ []

drain-Returns_example : Returns (drain read 40 (4 ∷ 4 ∷ 4 ∷ []) (frame_guard two_bytes))
drain-Returns_example =
    drain-Returns read joined reads calls answers 40 (4 ∷ 4 ∷ 4 ∷ []) two_bytes (omega arith)

drain_bounded-Bounded_example :
    Bounded
      (joined two_bytes)
      (drain_bounded read (4 ∷ 4 ∷ 4 ∷ []) (bounded_reader two_bytes)).1
      (drain_bounded read (4 ∷ 4 ∷ 4 ∷ []) (bounded_reader two_bytes)).0
drain_bounded-Bounded_example = drain_bounded-Bounded read joined reads (4 ∷ 4 ∷ 4 ∷ []) two_bytes
