-- ===== src/Tests/ProxyRuns.antt =====
-- Runs of the event stream, of the chat endpoint, and of the session with the Gateway.
use dappnode_nexus_sdk.Prelude.{
  arith, ◌+◌, ◌≤◌, ◌≡◌, ◌↔◌, refl, true, false, Option, none, some, [], ◌∷◌, ◌++◌, length,
}
use dappnode_nexus_sdk.Prelude.Bytes.{Bytes, codes}
use dappnode_nexus_sdk.Prelude.Result.{ok, err}
use dappnode_nexus_sdk.Prelude.Time.{pos}
use dappnode_nexus_sdk.Jsonutil.{read_all_limited, read_all_limited_iff}
use dappnode_nexus_sdk.Ledger.{Request, new}
use dappnode_nexus_sdk.Proxy.Sse.{new_tracker, write, finish}
use dappnode_nexus_sdk.Proxy.Sse.Lines.{lines, any, tracker_done, write-append}
use dappnode_nexus_sdk.Proxy.Stream.{Read, eof, forward_event_stream}
use dappnode_nexus_sdk.Proxy.Stream.Verdict.{Verdict, read_bytes, forward_event_stream-Verdict}
use dappnode_nexus_sdk.Proxy.Chat.{
  Local, ChatRequest, GatewayResponse, Clock, first_record, serve_chat,
}
use dappnode_nexus_sdk.Proxy.Chat.Recorded.{Handled, serve_chat-Handled}
use dappnode_nexus_sdk.Confidential.{Ehbp, Client, Clock as SessionClock, session_for, reverify}
use dappnode_nexus_sdk.Confidential.Session.{
  ServedBy, session_for-Served, Reverified, reverify-Reverified,
}
use dappnode_nexus_sdk.Tests.Fixtures.{evidence, now}

abbrev stream_bytes : Bytes
stream_bytes = codes "data: {}\ndata: [DONE]\n"

tracker_done_example : (finish (write new_tracker stream_bytes)).done ≡ any (lines stream_bytes)
tracker_done_example = tracker_done stream_bytes

write-append_example :
    write new_tracker (codes "data: [DO" ++ codes "NE]\n")
    ≡ write (write new_tracker (codes "data: [DO")) (codes "NE]\n")
write-append_example = write-append (codes "data: [DO") (codes "NE]\n") new_tracker

read_all_limited_iff_example :
    (read_all_limited (record { bytes = codes "{}"; failure = false }) (pos 2) ≡ ok (codes "{}"))
    ↔ ((codes "{}" ≡ codes "{}") × (length (codes "{}") ≤ 2) × (false ≡ false))
read_all_limited_iff_example =
    read_all_limited_iff (record { bytes = codes "{}"; failure = false }) 2 (codes "{}")
      (omega arith)

abbrev started : Request
started = first_record (codes "id") now (codes "{}")

abbrev first_read : Read
first_read = record { bytes = codes "data: [DO"; error = none; write_fails = false }

abbrev last_read : Read
last_read = record { bytes = codes "NE]\n"; error = some eof; write_fails = false }

abbrev lost_read : Read
lost_read = record { bytes = codes "NE]\n"; error = none; write_fails = true }

forward_event_stream-Verdict_example :
    Verdict false started
      (read_bytes (first_read ∷ last_read ∷ []))
      eof
      (forward_event_stream false started (first_read ∷ last_read ∷ []))
forward_event_stream-Verdict_example =
    forward_event_stream-Verdict false started (first_read ∷ []) [] last_read eof ((refl, refl), tt)
      refl refl

abbrev local : Local
local = record {
  media_type = λ t. some t;
  lower = λ t. t;
  json_valid = λ b. true;
  new_id = some (codes "id");
  marshal = λ e. some e.request;
}

abbrev chat : ChatRequest
chat = record {
  method = codes "POST";
  content_type = codes "application/json";
  body = record { bytes = codes " {\"model\":\"m\"}\n"; failure = false };
  authorization = codes "Bearer key";
  accept = [];
  user_agent = [];
}

-- A Gateway that answers each envelope with itself.
abbrev echo : Bytes → Bytes → Bytes → Bytes → Option GatewayResponse × Bytes
echo authorization accept user_agent envelope = (
  some (record {
    status = 200;
    content_type = codes "application/json";
    body = record { bytes = envelope; failure = false };
    reads = [];
    gone = false;
  }),
  codes "key-1",
)

abbrev clock : Clock
clock = record { issued = now; started = now; finished = now + 3000000 }

serve_chat-Handled_example :
    Handled local clock echo (some new) chat (serve_chat local clock echo (some new) chat)
serve_chat-Handled_example = serve_chat-Handled local clock echo (some new) chat

-- An EHBP library whose Gateway refuses the key that it is sent.
abbrev pub ehbp : Ehbp Bytes Bytes Bytes
ehbp = record {
  from_public_key = λ k. ok k;
  new_transport = λ i. ok i;
  valid_url = λ u. true;
  exchange = λ t p. err true;
  sha256 = λ b. b;
}

abbrev pub client : Client Bytes
client = record {
  endpoint = codes "https://nexus.example/v1/confidential/chat/completions";
  ledger = some new;
  session = none;
  next = 0;
}

abbrev pub session_clock : SessionClock
session_clock = record { at_start = now; verified = now; described = now; in_ledger = now }

session_for-Served_example :
    ServedBy ehbp client session_clock
      (ok (some evidence))
      (session_for ehbp client session_clock (ok (some evidence)))
session_for-Served_example = session_for-Served ehbp client session_clock (ok (some evidence))

reverify-Reverified_example :
    Reverified ehbp session_clock
      (ok (some evidence))
      (reverify ehbp client session_clock (ok (some evidence)))
reverify-Reverified_example =
    reverify-Reverified ehbp client session_clock (ok (some evidence)) new refl
