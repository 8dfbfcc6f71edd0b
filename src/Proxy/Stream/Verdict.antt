-- ===== src/Proxy/Stream/Verdict.antt =====
-- When a streamed exchange counts as encrypted (internal/proxy/handler.go).
use mathlib.Core.Path.{subst}
use dappnode_nexus_sdk.Prelude.{
  ◌+◌, Bool, true, false, none, some, List, [], ◌∷◌, ◌++◌, ◌≡◌, refl, ap, ◌∙◌, sym, arith,
  if◌then◌else◌, length, is_empty, All, length-append, append_assoc, append-nil, Bool-cases, inl,
  inr,
}
use dappnode_nexus_sdk.Prelude.Bytes.{Bytes, codes}
use dappnode_nexus_sdk.Ledger.{Request, outcome_encrypted}
use dappnode_nexus_sdk.Proxy.Sse.{Tracker, new_tracker, write}
use dappnode_nexus_sdk.Proxy.Sse.Lines.{any, lines, tracker_done, write-append}
use dappnode_nexus_sdk.Proxy.Stream.{
  ReadError, Read, returned, aborted, Streamed, stream_failure, end_stream, count_bytes,
  client_gone, forward_loop, forward_event_stream,
}

-- All the bytes of some reads.
unfoldable pub read_bytes : List Read → Bytes
read_bytes [] = []
read_bytes (x ∷ xs) = x.bytes ++ read_bytes xs

read_bytes-snoc : (xs : List Read) (x : Read) → read_bytes (xs ++ x ∷ []) ≡ read_bytes xs ++ x.bytes
unfolding read_bytes
read_bytes-snoc [] x = append-nil x.bytes
read_bytes-snoc (y ∷ xs) x =
    ap (λ (t : Bytes). y.bytes ++ t) (read_bytes-snoc xs x)
    ∙ sym (append_assoc y.bytes (read_bytes xs) x.bytes)

-- A read with no error whose bytes reached the client.
abbrev pub GoesOn : Read → Type 0
GoesOn x = (x.error ≡ none) × (x.write_fails ≡ false)

write-if : (t : Tracker) (b : Bytes) → (if is_empty b then t else write t b) ≡ write t b
unfolding write
write-if t b = ground arith

count_bytes-if :
    (r : Request) (b : Bytes) → (if is_empty b then r else count_bytes r b) ≡ count_bytes r b
count_bytes-if r b = ground arith

write-nil : (t : Tracker) → t ≡ write t []
unfolding write
write-nil t = refl

count_bytes-append :
    (r : Request) (a b : Bytes) → count_bytes (count_bytes r a) b ≡ count_bytes r (a ++ b)
count_bytes-append r a b = ground (arith, length-append a b)

count_bytes-nil : (r : Request) → r ≡ count_bytes r []
count_bytes-nil r = ground arith

module _ (gone : Bool) where
  -- One read that goes on.
  forward_loop-next :
      (t : Tracker) (r : Request) (out : Bytes) (x : Read) (xs : List Read)
      → GoesOn x
      → forward_loop gone t r out (x ∷ xs)
        ≡ forward_loop gone (write t x.bytes) (count_bytes r x.bytes) (out ++ x.bytes) xs
  unfolding forward_loop
  forward_loop-next t r out x xs (e, w) =
      simp (e, w, write-if t x.bytes, count_bytes-if r x.bytes) (ground arith)

  -- The read that ends the stream, its bytes delivered.
  forward_loop-end :
      (t : Tracker) (r : Request) (out : Bytes) (x : Read) (xs : List Read) (e : ReadError)
      → x.error ≡ some e
      → x.write_fails ≡ false
      → forward_loop gone t r out (x ∷ xs)
        ≡ end_stream gone (write t x.bytes) (count_bytes r x.bytes) (out ++ x.bytes) e
  unfolding forward_loop
  forward_loop-end t r out x xs e h w =
      simp (h, w, write-if t x.bytes, count_bytes-if r x.bytes) (ground arith)

  forward_loop-client_gone :
      (t : Tracker) (r : Request) (out : Bytes) (x : Read) (xs : List Read)
      → is_empty x.bytes ≡ false
      → x.write_fails ≡ true
      → forward_loop gone t r out (x ∷ xs) ≡ client_gone (count_bytes r x.bytes) out
  unfolding forward_loop
  forward_loop-client_gone t r out x xs h w = simp (h, w)

  -- Reads that go on are one write of all their bytes.
  forward_loop-append :
      (xs ys : List Read) (t : Tracker) (r : Request) (out : Bytes)
      → All GoesOn xs
      → forward_loop gone t r out (xs ++ ys)
        ≡ forward_loop gone
            (write t (read_bytes xs))
            (count_bytes r (read_bytes xs))
            (out ++ read_bytes xs)
            ys
  unfolding read_bytes
  forward_loop-append [] ys t r out h =
      λ i. forward_loop gone (write-nil t i) (count_bytes-nil r i) (sym (append-nil out) i) ys
  forward_loop-append (x ∷ xs) ys t r out (g, h) =
      forward_loop-next t r out x (xs ++ ys) g
      ∙ forward_loop-append xs ys (write t x.bytes) (count_bytes r x.bytes) (out ++ x.bytes) h
      ∙ (λ i.
          forward_loop gone (sym (write-append x.bytes (read_bytes xs) t) i)
            (count_bytes-append r x.bytes (read_bytes xs) i)
            (append_assoc out x.bytes (read_bytes xs) i) ys)

-- The failure that is recorded: the Gateway ended the stream early, or else the client had gone, or
-- else the stream broke.
abbrev pub Blames : Bool → ReadError → Bytes → Type 0
Blames gone ReadError.eof text =
    text ≡ codes "authenticated event stream ended without a terminating [DONE]"
Blames true ReadError.broken text = text ≡ codes "local client disconnected mid-stream"
Blames false ReadError.broken text = text ≡ codes "authenticated event stream failed mid-response"

stream_failure-Blames : (gone : Bool) (e : ReadError) → Blames gone e (stream_failure e gone)
stream_failure-Blames gone ReadError.eof = refl
stream_failure-Blames true ReadError.broken = refl
stream_failure-Blames false ReadError.broken = refl

-- How an exchange ends of which `done` says whether a line was the terminator.
abbrev pub Judged : Bool → Request → ReadError → Bool → Streamed → Type 0
Judged gone r e true s = (s.request.outcome ≡ outcome_encrypted) × (s.ending ≡ returned)
Judged gone r e false s =
    (s.request.outcome ≡ r.outcome) × Blames gone e s.request.failure × (s.ending ≡ aborted)

-- What becomes of a stream whose bytes were all delivered when its read reported `e`.
pub record Verdict (gone : Bool) (r : Request) (bytes : Bytes) (e : ReadError) (s : Streamed)
    : Type 0 where
  pub delivered : s.delivered ≡ bytes
  pub counted : s.request.response_bytes ≡ r.response_bytes + length bytes
  pub judged : Judged gone r e (any (lines bytes)) s

end_stream-Verdict :
    (gone : Bool) (r : Request) (bytes : Bytes) (e : ReadError)
    → Verdict gone r bytes e
        (end_stream gone (write new_tracker bytes) (count_bytes r bytes) bytes e)
unfolding end_stream
end_stream-Verdict gone r bytes e = elim (Bool-cases (any (lines bytes))) [
  | inl h ↦
      rw (tracker_done bytes, h)
        (record { delivered = refl; counted = refl; judged = rw h (refl, refl) })
  | inr h ↦
      rw (tracker_done bytes, h)
        (record {
          delivered = refl;
          counted = refl;
          judged = rw h (refl, stream_failure-Blames gone e, refl);
        })
]

forward_loop-ends :
    (gone : Bool) (r : Request) (xs later : List Read) (x : Read) (e : ReadError)
    → All GoesOn xs
    → x.error ≡ some e
    → x.write_fails ≡ false
    → forward_loop gone new_tracker r [] (xs ++ x ∷ later)
      ≡ end_stream gone
          (write new_tracker (read_bytes (xs ++ x ∷ [])))
          (count_bytes r (read_bytes (xs ++ x ∷ [])))
          (read_bytes (xs ++ x ∷ []))
          e
forward_loop-ends gone r xs later x e goes h w =
    forward_loop-append gone xs (x ∷ later) new_tracker r [] goes
    ∙ forward_loop-end gone (write new_tracker (read_bytes xs)) (count_bytes r (read_bytes xs))
        (read_bytes xs) x later e h w
    ∙ (λ i.
        end_stream gone (sym (write-append (read_bytes xs) x.bytes new_tracker) i)
          (count_bytes-append r (read_bytes xs) x.bytes i) (read_bytes xs ++ x.bytes) e)
    ∙ (λ i.
        end_stream gone (write new_tracker (sym (read_bytes-snoc xs x) i))
          (count_bytes r (sym (read_bytes-snoc xs x) i)) (sym (read_bytes-snoc xs x) i) e)

-- A stream whose reads went on until one reported an error, its writes all made: every byte was
-- delivered in order and counted. The exchange is recorded as encrypted exactly when a line of it,
-- of at most 1 MiB, is the terminator of is_done_line. Otherwise its outcome is left, the connection
-- is aborted, and the failure is that of a stream without a terminator when the read reported
-- io.EOF, that of a client that has gone when the request's context is done, and else that of a
-- stream that broke.
pub forward_event_stream-Verdict :
    (gone : Bool) (r : Request) (xs later : List Read) (x : Read) (e : ReadError)
    → All GoesOn xs
    → x.error ≡ some e
    → x.write_fails ≡ false
    → Verdict gone r (read_bytes (xs ++ x ∷ [])) e (forward_event_stream gone r (xs ++ x ∷ later))
unfolding forward_event_stream
forward_event_stream-Verdict gone r xs later x e goes h w =
    subst (Verdict gone r (read_bytes (xs ++ x ∷ [])) e)
      (sym (forward_loop-ends gone r xs later x e goes h w))
      (end_stream-Verdict gone r (read_bytes (xs ++ x ∷ [])) e)

-- A write that fails ends the exchange there: the outcome is left, and only the bytes of the reads
-- before it were delivered.
pub forward_event_stream-client_gone :
    (gone : Bool) (r : Request) (xs later : List Read) (x : Read)
    → All GoesOn xs
    → is_empty x.bytes ≡ false
    → x.write_fails ≡ true
    → forward_event_stream gone r (xs ++ x ∷ later)
      ≡ client_gone (count_bytes r (read_bytes (xs ++ x ∷ []))) (read_bytes xs)
unfolding forward_event_stream
forward_event_stream-client_gone gone r xs later x goes h w =
    forward_loop-append gone xs (x ∷ later) new_tracker r [] goes
    ∙ forward_loop-client_gone gone (write new_tracker (read_bytes xs))
        (count_bytes r (read_bytes xs)) (read_bytes xs) x later h w
    ∙ (λ i. client_gone (count_bytes-append r (read_bytes xs) x.bytes i) (read_bytes xs))
    ∙ rw (read_bytes-snoc xs x) refl
