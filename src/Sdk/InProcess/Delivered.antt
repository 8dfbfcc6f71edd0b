-- ===== src/Sdk/InProcess/Delivered.antt =====
-- client.go: the body that the caller of the in-process transport reads, and its result.
use dappnode_nexus_sdk.Prelude.{
  ℕ, Bool, true, false, Option, none, some, List, [], ◌∷◌, ◌++◌, ◌==◌, if◌then◌else◌, ◌≡◌, refl, ap,
  ◌∙◌, sym, append_assoc, append-nil, ◌≢◌,
}
use dappnode_nexus_sdk.Prelude.Bytes.{Bytes, codes, bytes_eq}
use dappnode_nexus_sdk.Prelude.Result.{Result, ok, err}
use dappnode_nexus_sdk.Sdk.InProcess.{
  HandlerError, Pipe, Writer, Event, set_header, write_header, write, flush, finish, status_ok,
  pipe_write, pipe_close, new_writer, do_write_header, do_write, do_flush, do_finish, fail_ready,
  finish_once, step, run, write_unless, close_unless, Response, RoundTripError, respond_unless,
  no_status, handler_error, respond, selected, round_trip,
}
use dappnode_nexus_sdk.Sdk.InProcess.Committed.{
  Answer, pending, answered, refused, answer, transcript, view, shown, run-Shown,
}

-- A closed pipe takes no more.
write_closed :
    (b : Bytes) (p : Pipe) (d : Option HandlerError) → p.closed ≡ some d → pipe_write b p ≡ p
unfolding pipe_write
write_closed b p d h = ap (write_unless b p) h

abbrev pub pipe_with : Pipe → Bytes × Option (Option HandlerError) → Pipe
pipe_with p (more, e) = record { written = p.written ++ more; closed = e }

pipe_nil : (p : Pipe) (e : Option (Option HandlerError)) → p.closed ≡ e → p ≡ pipe_with p ([], e)
pipe_nil p e h =
    ap (λ c. record { written = p.written; closed = c }) h
    ∙ ap (λ x. record { written = x; closed = e }) (sym (append-nil p.written))

Ends : Bytes × Option (Option HandlerError) → Type 0
Ends t = t.1 ≢ none

module _ {H : Type 0} where
  -- What decides how the pipe goes on.
  abbrev tail : Writer H → Pipe × Bool
  tail w = (w.pipe, w.finished)

  if_tail : (b : Bool) (w w' : Writer H) → tail w' ≡ tail w → tail (if b then w else w') ≡ tail w
  if_tail true w w' h = refl
  if_tail false w w' h = h

  header_tail : (s : ℕ) (w : Writer H) → tail (do_write_header s w) ≡ tail w
  unfolding do_write_header
  header_tail s w = if_tail w.ready w _ refl

  fail_tail : (e : HandlerError) (w : Writer H) → tail (fail_ready e w) ≡ tail w
  fail_tail e w = if_tail w.ready w _ refl

  record Done (d : Option HandlerError) (w : Writer H) : Type 0 where
    ended : w.finished ≡ true
    closed : w.pipe.closed ≡ some d

  Done-tail : (d : Option HandlerError) (w w' : Writer H) → tail w' ≡ tail w → Done d w → Done d w'
  Done-tail d w w' h k = record {
    ended = ap (λ t. t.1) h ∙ k.ended;
    closed = ap (λ t. t.0.closed) h ∙ k.closed;
  }

  step-Done :
      (e : Event H) (d : Option HandlerError) (w : Writer H) → Done d w → tail (step e w) ≡ tail w
  unfolding do_write do_flush do_finish
  step-Done (set_header h) d w k = refl
  step-Done (write_header s) d w k = header_tail s w
  step-Done (write b) d w k =
      let h = header_tail status_ok w in
      ap (λ p. (p, (do_write_header status_ok w).finished))
        (write_closed b (do_write_header status_ok w).pipe d (ap (λ t. t.0.closed) h ∙ k.closed))
      ∙ h
  step-Done flush d w k = header_tail status_ok w
  step-Done (finish e) d w k =
      ap (λ b. tail (if b then w else record (finish_once e w) { finished = true })) k.ended

  run-Done :
      (es : List (Event H)) (d : Option HandlerError) (w : Writer H)
      → Done d w
      → (run es w).pipe ≡ w.pipe
  unfolding run
  run-Done [] d w k = refl
  run-Done (e ∷ es) d w k =
      let h = step-Done e d w k in
      run-Done es d (step e w) (Done-tail d w (step e w) h k) ∙ ap (λ t. t.0) h

  finish_once-pipe :
      (e : Option HandlerError) (w : Writer H) → (finish_once e w).pipe ≡ pipe_close e w.pipe
  finish_once-pipe none w = ap (λ t. pipe_close none t.0) (header_tail status_ok w)
  finish_once-pipe (some e) w = ap (λ t. pipe_close (some e) t.0) (fail_tail e w)

  do_finish-tail :
      (e : Option HandlerError) (w : Writer H) (p : Pipe)
      → tail w ≡ (p, false)
      → p.closed ≡ none
      → tail (do_finish e w) ≡ (record p { closed = some e }, true)
  unfolding do_finish pipe_close
  do_finish-tail e w p h o =
      ap (λ b. tail (if b then w else record (finish_once e w) { finished = true }))
        (ap (λ t. t.1) h)
      ∙ (ap (λ q. (q, true)) (finish_once-pipe e w)
          ∙ (ap (λ t. (pipe_close e t.0, true)) h ∙ ap (λ c. (close_unless e p c, true)) o))

  -- The bytes written until the handler finishes, and the end of the body.
  run_pipe :
      (es : List (Event H)) (w : Writer H) (p : Pipe)
      → tail w ≡ (p, false)
      → p.closed ≡ none
      → (run es w).pipe ≡ pipe_with p (transcript es)
  unfolding run transcript do_write do_flush pipe_write
  run_pipe [] w p h o = ap (λ t. t.0) h ∙ pipe_nil p none o
  run_pipe (set_header h' ∷ es) w p h o = run_pipe es (record w { header = h' }) p h o
  run_pipe (write_header s ∷ es) w p h o =
      run_pipe es (do_write_header s w) p (header_tail s w ∙ h) o
  run_pipe (write b ∷ es) w p h o =
      run_pipe es (do_write b w) (record p { written = p.written ++ b })
        (ap (λ t. (pipe_write b t.0, t.1)) (header_tail status_ok w ∙ h)
          ∙ ap (λ q. (q, false)) (ap (write_unless b p) o))
        o
      ∙ ap (λ x. record { written = x; closed = (transcript es).1 })
          (append_assoc p.written b (transcript es).0)
  run_pipe (flush ∷ es) w p h o = run_pipe es (do_flush w) p (header_tail status_ok w ∙ h) o
  run_pipe (finish e ∷ es) w p h o =
      let t = do_finish-tail e w p h o in
      run-Done es e (do_finish e w)
        (record { ended = ap (λ t. t.1) t; closed = ap (λ t. t.0.closed) t })
      ∙ (ap (λ t. t.0) t
          ∙ ap (λ x. record { written = x; closed = some e }) (sym (append-nil p.written)))

  -- RoundTrip's result, from the events alone; `none` if it waits for more of them.
  abbrev pub result :
      Answer H → Bytes × Option (Option HandlerError) → Option (Result RoundTripError (Response H))
  result pending t = none
  result (refused e) t = some (err (handler_error e))
  result (answered s h) (body, end) = some (
      if s == 0
      then err no_status
      else ok
          (record { status = s; header = some h; body = record { written = body; closed = end } }))

  respond-result :
      (w : Writer H) (a : Answer H) (t : Bytes × Option (Option HandlerError))
      → view w ≡ shown a
      → w.pipe ≡ record { written = t.0; closed = t.1 }
      → selected w.ready none w ≡ result a t
  unfolding respond
  respond-result w pending t h p = ap (λ v. selected v.0 none w) h
  respond-result w (refused e) t h p =
      ap (λ v. selected v.0 none w) h ∙ ap (λ v. some (respond_unless v.2 w)) h
  respond-result w (answered s x) t h p =
      ap (λ v. selected v.0 none w) h
      ∙ (ap (λ v. some (respond_unless v.2 w)) h
          ∙ (ap
                (λ v. some (
                  if v.1 == 0
                  then err no_status
                  else ok (record { status = v.1; header = v.3; body = w.pipe })))
                h
              ∙ ap
                  (λ q. some (
                    if s == 0
                    then err no_status
                    else ok (record { status = s; header = some x; body = q })))
                  p))

  -- A request to the in-process origin whose context is live, answered by a handler, gives what the
  -- events say: the status and headers of the first that commits, the bytes written until the
  -- handler finished, and its error if it failed before it committed. RoundTrip waits exactly as
  -- long as no event has committed.
  pub round_trip-result :
      (empty : H) (es : List (Event H))
      → round_trip true (codes "http") (codes "nexus.local") empty es none
        ≡ result (answer empty es) (transcript es)
  unfolding round_trip bytes_eq
  round_trip-result empty es =
      respond-result (run es (new_writer empty)) (answer empty es) (transcript es)
        (run-Shown empty es)
        (run_pipe es (new_writer empty) (record { written = []; closed = none }) refl refl)

  Decided : Answer H → Type 0
  Decided a = (shown a).0 ≡ true

  answer-Decided :
      (before after : List (Event H)) (h : H) (e : Option HandlerError)
      → Decided (answer h (before ++ finish e ∷ after))
  unfolding answer Decided
  answer-Decided [] after h none = refl
  answer-Decided [] after h (some e) = refl
  answer-Decided (set_header h' ∷ es) after h e = answer-Decided es after h' e
  answer-Decided (write_header s ∷ es) after h e = refl
  answer-Decided (write b ∷ es) after h e = refl
  answer-Decided (flush ∷ es) after h e = refl
  answer-Decided (finish none ∷ es) after h e = refl
  answer-Decided (finish (some d) ∷ es) after h e = refl

  transcript-Ends :
      (before after : List (Event H)) (e : Option HandlerError)
      → Ends (transcript (before ++ finish e ∷ after))
  unfolding transcript Ends
  transcript-Ends [] after e = λ h. absurd (cc)
  transcript-Ends (set_header h ∷ es) after e = transcript-Ends es after e
  transcript-Ends (write_header s ∷ es) after e = transcript-Ends es after e
  transcript-Ends (write b ∷ es) after e = transcript-Ends es after e
  transcript-Ends (flush ∷ es) after e = transcript-Ends es after e
  transcript-Ends (finish d ∷ es) after e = λ h. absurd (cc)

  -- A handler that finishes, with or without an error and whatever it did before, makes the writer
  -- ready, so that RoundTrip's select goes on, and closes the body, so that its reader comes to an
  -- end.
  pub finish-Ready :
      (empty : H) (before after : List (Event H)) (e : Option HandlerError)
      → let w = run (before ++ finish e ∷ after) (new_writer empty) in
        (w.ready ≡ true) × (w.pipe.closed ≢ none)
  unfolding Decided Ends
  finish-Ready empty before after e =
      let es = before ++ finish e ∷ after in
      let pipe =
        run_pipe es (new_writer empty) (record { written = []; closed = none }) refl refl in
      (
        ap (λ v. v.0) (run-Shown empty es) ∙ answer-Decided before after empty e,
        λ h. transcript-Ends before after e (sym (ap (λ p. p.closed) pipe) ∙ h),
      )
