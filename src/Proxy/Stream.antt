-- ===== src/Proxy/Stream.antt =====
-- forwardEventStream of internal/proxy/handler.go: what it does with each read of the decrypted
-- response body. The reads, and whether a write to the local client fails, are its input.
pub mod Verdict
use dappnode_nexus_sdk.Prelude.{
  ℕ, ◌+◌, Bool, true, false, not, ◌&&◌, Option, none, some, List, [], ◌∷◌, ◌++◌, if◌then◌else◌,
  length, is_empty,
}
use dappnode_nexus_sdk.Prelude.Bytes.{Bytes, codes}
use dappnode_nexus_sdk.Ledger.{Request, outcome_encrypted}
use dappnode_nexus_sdk.Proxy.Sse.{Tracker, new_tracker, write, finish}

pub data ReadError : Type 0 where
  eof broken : ReadError

-- One reader.Read(buffer): the bytes, the error, and whether the write of these bytes then fails.
pub record Read : Type 0 where
  pub bytes : Bytes
  pub error : Option ReadError
  pub write_fails : Bool

-- How the handler is left: by return, by panic(http.ErrAbortHandler), or still reading.
pub data Ending : Type 0 where
  returned aborted reading : Ending

pub record Streamed : Type 0 where
  pub delivered : Bytes
  pub request : Request
  pub ending : Ending

abbrev pub failure_client_gone : Bytes
failure_client_gone = codes "local client disconnected mid-stream"

abbrev pub failure_unterminated : Bytes
failure_unterminated = codes "authenticated event stream ended without a terminating [DONE]"

abbrev pub failure_broken : Bytes
failure_broken = codes "authenticated event stream failed mid-response"

abbrev pub stream_failure : ReadError → Bool → Bytes
stream_failure eof gone = failure_unterminated
stream_failure broken gone = if gone then failure_client_gone else failure_broken

-- The code behind a read that reports an error. `gone` is ctx.Err() != nil.
unfoldable pub end_stream : Bool → Tracker → Request → Bytes → ReadError → Streamed
end_stream gone t r out e =
    if (finish t).done
    then record {
      delivered = out;
      request = record r { outcome = outcome_encrypted };
      ending = returned;
    }
    else record {
      delivered = out;
      request = record r { failure = stream_failure e gone };
      ending = aborted;
    }

abbrev pub count_bytes : Request → Bytes → Request
count_bytes r b = record r { response_bytes = r.response_bytes + length b }

abbrev pub client_gone : Request → Bytes → Streamed
client_gone r out = record {
  delivered = out;
  request = record r { failure = failure_client_gone };
  ending = returned;
}

-- The loop, over the reads to come.
unfoldable pub forward_loop : Bool → Tracker → Request → Bytes → List Read → Streamed
unfolding end_stream
forward_loop gone t r out [] = record { delivered = out; request = r; ending = reading }
forward_loop gone t r out (x ∷ xs) =
    let t' = if is_empty x.bytes then t else write t x.bytes in
    let r' = if is_empty x.bytes then r else count_bytes r x.bytes in
    let out' = out ++ x.bytes in
    let rest = forward_loop gone t' r' out' xs in
    if not (is_empty x.bytes) && x.write_fails
    then client_gone r' out
    else elim x.error [ none ↦ rest | some e ↦ end_stream gone t' r' out' e ]

unfoldable pub forward_event_stream : Bool → Request → List Read → Streamed
unfolding forward_loop
forward_event_stream gone r xs = forward_loop gone new_tracker r [] xs
