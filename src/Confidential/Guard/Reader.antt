-- ===== src/Confidential/Guard/Reader.antt =====
-- What io.Reader promises of the body that internal/confidential/frame_guard.go reads, and
-- io.ReadFull over it. `pending` is what the body still holds.
use dappnode_nexus_sdk.Prelude.{
  ℕ, zero, suc, ◌-◌, ◌≤◌, ◌<◌, ◌≡◌, refl, ap, ◌∙◌, Option, none, some, [], ◌++◌, arith, length,
  length-append, append_assoc, Bool-cases, inl, inr, ltb, ltb→lt, passed_ltb, if◌then◌else◌, sym,
}
use dappnode_nexus_sdk.Prelude.Bytes.{Bytes}
use mathlib.Core.Option.{some-injective}
use mathlib.Core.Path.{subst}
use dappnode_nexus_sdk.Confidential.Guard.{
  SourceError, end_of_file, failed, Reply, read_full, read_more, prepend,
}

-- After io.EOF the body holds nothing.
abbrev pub AtEnd : SourceError → Bytes → Type 0
AtEnd end_of_file p = p ≡ []
AtEnd (failed _) p = Unit

abbrev pub EndsRight : Option SourceError → Bytes → Type 0
EndsRight none p = Unit
EndsRight (some e) p = AtEnd e p

abbrev pub FullEnd : ℕ → Bytes → Option SourceError → Bytes → Type 0
FullEnd n bytes none p = length bytes ≡ n
FullEnd n bytes (some e) p = (length bytes < n) × AtEnd e p

module _ {S : Type 0} where
  pub record Reads (read : ℕ → S → Reply S) (pending : S → Bytes) : Type 0 where
    pub at_most : (n : ℕ) (s : S) → length (read n s).bytes ≤ n
    pub in_order : (n : ℕ) (s : S) → pending s ≡ (read n s).bytes ++ pending (read n s).rest
    pub ends_right : (n : ℕ) (s : S) → EndsRight (read n s).error (pending (read n s).rest)

  -- A read of `n` bytes: all of them, or fewer and the error that stopped it.
  pub record IsFull (pending : S → Bytes) (n : ℕ) (s : S) (r : Reply S) : Type 0 where
    pub front : pending s ≡ r.bytes ++ pending r.rest
    pub ending : FullEnd n r.bytes r.error (pending r.rest)

  module _ (read : ℕ → S → Reply S) (pending : S → Bytes) (laws : Reads read pending) where
    FullEnd-prepend :
        (xs ys : Bytes) (n : ℕ) (e : Option SourceError) (p : Bytes)
        → length xs ≤ n
        → FullEnd (n - length xs) ys e p
        → FullEnd n (xs ++ ys) e p
    FullEnd-prepend xs ys n none p h k = omega (arith, length-append xs ys)
    FullEnd-prepend xs ys n (some e) p h (k, t) = (omega (arith, length-append xs ys), t)

    IsFull-prepend :
        (bytes : Bytes) (n : ℕ) (s s' : S) (o : Option (Reply S)) (r : Reply S)
        → length bytes ≤ n
        → pending s ≡ bytes ++ pending s'
        → ((q : Reply S) → o ≡ some q → IsFull pending (n - length bytes) s' q)
        → prepend bytes o ≡ some r
        → IsFull pending n s r
    IsFull-prepend bytes n s s' none r hl hp ih h = absurd (cc)
    IsFull-prepend bytes n s s' (some q) r hl hp ih h =
        let f = ih q refl in
        subst (IsFull pending n s) (some-injective (record q { bytes = bytes ++ q.bytes }) r h)
          (record {
            front =
                hp ∙ (ap (◌++◌ bytes) f.front ∙ sym (append_assoc bytes q.bytes (pending q.rest)));
            ending = FullEnd-prepend bytes q.bytes n q.error (pending q.rest) hl f.ending;
          })

    FullEnd-stopped :
        (bytes : Bytes) (n : ℕ) (e : SourceError) (p : Bytes)
        → length bytes ≤ n
        → AtEnd e p
        → FullEnd n bytes (if ltb (length bytes) n then some e else none) p
    FullEnd-stopped bytes n e p hl ht = elim (Bool-cases (ltb (length bytes) n)) [
      | inl t ↦ rw t (ltb→lt (length bytes) n t, ht)
      | inr t ↦ rw t (omega (arith, passed_ltb (length bytes) n t))
    ]

    read_more-IsFull :
        (next : ℕ → S → Option (Reply S)) (n : ℕ) (s : S) (bytes : Bytes) (s' : S)
        (e : Option SourceError) (r : Reply S)
        → length bytes ≤ n
        → pending s ≡ bytes ++ pending s'
        → EndsRight e (pending s')
        → ((m : ℕ) (t : S) (q : Reply S) → next m t ≡ some q → IsFull pending m t q)
        → read_more next n bytes s' e ≡ some r
        → IsFull pending n s r
    read_more-IsFull next n s bytes s' none r hl hp he ih h =
        IsFull-prepend bytes n s s' (next (n - length bytes) s') r hl hp
          (λ q. ih (n - length bytes) s' q) h
    read_more-IsFull next n s bytes s' (some e) r hl hp he ih h =
        subst (IsFull pending n s)
          (some-injective
            (record {
              bytes = bytes;
              error = if ltb (length bytes) n then some e else none;
              rest = s';
            })
            r h)
          (record { front = hp; ending = FullEnd-stopped bytes n e (pending s') hl he })

    pub read_full-IsFull :
        (fuel n : ℕ) (s : S) (r : Reply S) → read_full read fuel n s ≡ some r → IsFull pending n s r
    unfolding read_full
    read_full-IsFull fuel zero s r h =
        subst (IsFull pending 0 s)
          (some-injective (record { bytes = []; error = none; rest = s }) r h)
          (record { front = refl; ending = refl })
    read_full-IsFull zero (suc n) s r h = absurd (cc)
    read_full-IsFull (suc fuel) (suc n) s r h =
        read_more-IsFull (read_full read fuel) (suc n) s (read (suc n) s).bytes
          (read (suc n) s).rest (read (suc n) s).error r (laws.at_most (suc n) s)
          (laws.in_order (suc n) s) (laws.ends_right (suc n) s) (read_full-IsFull fuel) h
