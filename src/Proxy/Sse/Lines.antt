-- ===== src/Proxy/Sse/Lines.antt =====
-- The tracker against its purpose: it is done when some line of the stream, at most 1 MiB long, is
-- the terminator but for the white space round it (internal/proxy/handler.go).
use dappnode_nexus_sdk.Prelude.{
  ℕ, ◌≤◌, Bool, true, false, not, ◌&&◌, ◌||◌, List, [], ◌∷◌, ◌++◌, ◌≡◌, refl, ◌∙◌, arith, ◌==◌, leb,
  if◌then◌else◌, length, Bool-cases, inl, inr, length-append,
}
use dappnode_nexus_sdk.Prelude.Bytes.{Bytes}
use dappnode_nexus_sdk.Proxy.Sse.{
  Tracker, new_tracker, max_sse_line_tracking, is_done_line, finish_line, track, write, finish,
}

-- The lines of a stream, the last one unfinished; `line` is what has been read of the first.
unfoldable pub lines_from : Bytes → Bytes → List Bytes
lines_from line [] = line ∷ []
lines_from line (c ∷ cs) = elim (c == b'\n') [
  | true ↦ line ∷ lines_from [] cs
  | false ↦ lines_from (line ++ c ∷ []) cs
]

abbrev pub lines : Bytes → List Bytes
lines = lines_from []

-- A line that ends the stream.
abbrev pub ends_stream : Bytes → Bool
ends_stream line = leb (length line) max_sse_line_tracking && is_done_line line

unfoldable pub any : List Bytes → Bool
any [] = false
any (l ∷ ls) = ends_stream l || any ls

-- The tracker has read `line` since the last line break.
pub record Follows (line : Bytes) (t : Tracker) : Type 0 where
  pub too_long_is : t.too_long ≡ not (leb (length line) max_sse_line_tracking)
  pub line_is : t.line ≡ (if leb (length line) max_sse_line_tracking then line else [])

empty_not_done : is_done_line [] ≡ false
unfolding is_done_line
empty_not_done = refl

finish_line-done :
    (line : Bytes) (t : Tracker)
    → Follows line t
    → (finish_line t).done ≡ (ends_stream line || t.done)
unfolding finish_line
finish_line-done line t f = ground arith

finish-done :
    (line : Bytes) (t : Tracker) → Follows line t → (finish t).done ≡ (ends_stream line || t.done)
unfolding finish finish_line
finish-done [] t f = ground (arith, empty_not_done)
finish-done (c ∷ cs) t f = ground arith

track-Follows :
    (line : Bytes) (t : Tracker) (c : ℕ)
    → Follows line t
    → (c == b'\n') ≡ false
    → Follows (line ++ c ∷ []) (track t c)
unfolding track
track-Follows line t c f h = ground (arith, length-append line (c ∷ []))

track-done : (t : Tracker) (c : ℕ) → (c == b'\n') ≡ false → (track t c).done ≡ t.done
unfolding track
track-done t c h = ground arith

track_newline : (t : Tracker) (c : ℕ) → (c == b'\n') ≡ true → track t c ≡ finish_line t
unfolding track
track_newline t c h = rw h refl

Follows-finish_line : (t : Tracker) → Follows [] (finish_line t)
unfolding finish_line
Follows-finish_line t = record { too_long_is = refl; line_is = refl }

or_swap : (a b c : Bool) → (a || (b || c)) ≡ ((b || a) || c)
or_swap a b c = ground arith

write-done :
    (bytes line : Bytes) (t : Tracker)
    → Follows line t
    → (finish (write t bytes)).done ≡ (any (lines_from line bytes) || t.done)
unfolding write any lines_from
write-done [] line t f = finish-done line t f ∙ ground arith
write-done (c ∷ cs) line t f = elim (Bool-cases (c == b'\n')) [
  | inl e ↦
      rw (track_newline t c e, e, lines_from)
        (write-done cs [] (finish_line t) (Follows-finish_line t)
          ∙ rw (finish_line-done line t f)
              (or_swap (any (lines_from [] cs)) (ends_stream line) t.done))
  | inr e ↦
      rw (e, lines_from)
        (write-done cs (line ++ c ∷ []) (track t c) (track-Follows line t c f e)
          ∙ rw (track-done t c e) refl)
]

-- After a whole stream a new tracker is done exactly when one of its lines, of at most 1 MiB, is
-- the terminator that is_done_line tests for, with white space round it.
pub tracker_done : (bytes : Bytes) → (finish (write new_tracker bytes)).done ≡ any (lines bytes)
tracker_done bytes =
    write-done bytes [] new_tracker (record { too_long_is = refl; line_is = refl }) ∙ ground arith

-- How a stream is cut into reads makes no difference to the tracker.
pub write-append : (xs ys : Bytes) (t : Tracker) → write t (xs ++ ys) ≡ write (write t xs) ys
unfolding write
write-append [] ys t = refl
write-append (x ∷ xs) ys t = write-append xs ys (track t x)

-- Once done, always done.
finish_line-keeps_done : (t : Tracker) → t.done ≡ true → (finish_line t).done ≡ true
unfolding finish_line
finish_line-keeps_done t h = ground arith

-- The tracker never holds more than 1 MiB of a line.
pub write-bounded :
    (bytes : Bytes) (t : Tracker)
    → length t.line ≤ max_sse_line_tracking
    → length (write t bytes).line ≤ max_sse_line_tracking
unfolding write track finish_line
write-bounded [] t h = h
write-bounded (c ∷ cs) t h =
    write-bounded cs (track t c) (ground (arith, length-append t.line (c ∷ [])))
