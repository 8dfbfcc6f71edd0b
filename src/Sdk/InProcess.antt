-- ===== src/Sdk/InProcess.antt =====
-- client.go: handlerTransport, whose RoundTrip runs the handler on a goroutine of its own, and
-- inProcessResponseWriter between them. What the handler does to the writer is a list of events,
-- in which the goroutine's deferred `finish` and that of a cancelled request stand as well. The
-- type `H` is http.Header, the pipe of io is a record of what was written until it was closed.
pub mod Committed
pub mod Delivered
use dappnode_nexus_sdk.Prelude.{
  ℕ, Bool, true, false, not, ◌&&◌, Option, none, some, List, [], ◌∷◌, ◌++◌, ◌==◌, if◌then◌else◌,
}
use dappnode_nexus_sdk.Prelude.Bytes.{Bytes, codes, bytes_eq}
use dappnode_nexus_sdk.Prelude.Result.{Result, ok, err}

-- io.ErrUnexpectedEOF for an aborted handler, the text of a panic, or the request's context error.
pub data HandlerError : Type 0 where
  unexpected_eof : HandlerError
  panicked : Bytes → HandlerError
  cancelled : Bytes → HandlerError

-- The end of the pipe: Close, or CloseWithError.
pub record Pipe : Type 0 where
  pub written : Bytes
  pub closed : Option (Option HandlerError)

-- `ready` and `finished` say that readyOnce and finishOnce were used; readyOnce closes the channel.
pub record Writer (H : Type 0) : Type 0 where
  pub header : H
  pub response_header : Option H
  pub status : ℕ
  pub terminal_err : Option HandlerError
  pub pipe : Pipe
  pub ready : Bool
  pub finished : Bool

pub data Event (H : Type 0) : Type 0 where
  set_header : H → Event H
  write_header : ℕ → Event H
  write : Bytes → Event H
  flush : Event H
  finish : Option HandlerError → Event H

abbrev pub status_ok : ℕ
status_ok = 200

-- A write on a pipe that was closed gives io.ErrClosedPipe.
abbrev write_unless : Bytes → Pipe → Option (Option HandlerError) → Pipe
write_unless b p none = record p { written = p.written ++ b }
write_unless b p (some e) = p

unfoldable pub pipe_write : Bytes → Pipe → Pipe
pipe_write b p = write_unless b p p.closed

-- The first close counts.
abbrev close_unless : Option HandlerError → Pipe → Option (Option HandlerError) → Pipe
close_unless e p none = record p { closed = some e }
close_unless e p (some d) = p

unfoldable pub pipe_close : Option HandlerError → Pipe → Pipe
pipe_close e p = close_unless e p p.closed

module _ {H : Type 0} where
  -- newInProcessResponseWriter; `h` is the empty header.
  abbrev pub new_writer : H → Writer H
  new_writer h = record {
    header = h;
    response_header = none;
    status = 0;
    terminal_err = none;
    pipe = record { written = []; closed = none };
    ready = false;
    finished = false;
  }

  -- WriteHeader
  unfoldable pub do_write_header : ℕ → Writer H → Writer H
  do_write_header status w =
      if w.ready
      then w
      else record w { status = status; response_header = some w.header; ready = true }

  unfoldable pub do_write : Bytes → Writer H → Writer H
  do_write b w = let w' = do_write_header status_ok w in record w' { pipe = pipe_write b w'.pipe }

  unfoldable pub do_flush : Writer H → Writer H
  do_flush w = do_write_header status_ok w

  abbrev pub fail_ready : HandlerError → Writer H → Writer H
  fail_ready e w = if w.ready then w else record w { terminal_err = some e; ready = true }

  abbrev pub finish_once : Option HandlerError → Writer H → Writer H
  finish_once (some e) w =
      let w' = fail_ready e w in record w' { pipe = pipe_close (some e) w'.pipe }
  finish_once none w =
      let w' = do_write_header status_ok w in record w' { pipe = pipe_close none w'.pipe }

  unfoldable pub do_finish : Option HandlerError → Writer H → Writer H
  do_finish e w = if w.finished then w else record (finish_once e w) { finished = true }

  abbrev pub step : Event H → Writer H → Writer H
  step (set_header h) w = record w { header = h }
  step (write_header s) w = do_write_header s w
  step (write b) w = do_write b w
  step flush w = do_flush w
  step (finish e) w = do_finish e w

  unfoldable pub run : List (Event H) → Writer H → Writer H
  run [] w = w
  run (e ∷ es) w = run es (step e w)

pub data RoundTripError : Type 0 where
  no_handler wrong_url no_status : RoundTripError
  context_error : Bytes → RoundTripError
  handler_error : HandlerError → RoundTripError

pub record Response (H : Type 0) : Type 0 where
  pub status : ℕ
  pub header : Option H
  pub body : Pipe

abbrev is_in_process : Bytes → Bytes → Bool
is_in_process scheme host = bytes_eq scheme (codes "http") && bytes_eq host (codes "nexus.local")

module _ {H : Type 0} where
  abbrev pub respond_status : Writer H → Result RoundTripError (Response H)
  respond_status w =
      if w.status == 0
      then err no_status
      else ok (record { status = w.status; header = w.response_header; body = w.pipe })

  abbrev pub respond_unless : Option HandlerError → Writer H → Result RoundTripError (Response H)
  respond_unless (some e) w = err (handler_error e)
  respond_unless none w = respond_status w

  -- The ready arm of RoundTrip's select, with the error of the request's context then.
  unfoldable pub respond : Option Bytes → Writer H → Result RoundTripError (Response H)
  respond (some e) w = err (context_error e)
  respond none w = respond_unless w.terminal_err w

  -- The select: `none` while it waits, which it does until the writer is ready or the request's
  -- context is done, with the error `context`.
  abbrev pub selected : Bool → Option Bytes → Writer H → Option (Result RoundTripError (Response H))
  selected true context w = some (respond context w)
  selected false (some e) w = some (err (context_error e))
  selected false none w = none

  -- RoundTrip of a request to `scheme`://`host`. `es` are the events of the whole run, for the
  -- response's body is read from the pipe as they come, by a caller that reads on. A nil request,
  -- which is refused, is no request of the model.
  unfoldable pub round_trip :
      Bool
      → Bytes
      → Bytes
      → H
      → List (Event H)
      → Option Bytes
      → Option (Result RoundTripError (Response H))
  unfolding run respond
  round_trip handler scheme host empty es context =
      let w = run es (new_writer empty) in
      if not handler
      then some (err no_handler)
      else if not (is_in_process scheme host)
      then some (err wrong_url)
      else selected w.ready context w
