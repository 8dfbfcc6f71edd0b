-- ===== src/Proxy/Sse.antt =====
-- sseDoneTracker of internal/proxy/handler.go: it watches a stream for the line that ends it.
pub mod Lines
use dappnode_nexus_sdk.Prelude.{
  ℕ, ◌+◌, ◌^◌, Bool, true, false, not, ◌&&◌, ◌||◌, List, [], ◌∷◌, ◌++◌, ◌==◌, if◌then◌else◌, length,
  is_empty,
}
use dappnode_nexus_sdk.Prelude.Bytes.{Bytes, codes, bytes_eq}
use dappnode_nexus_sdk.Prelude.Space.{trim_space}

abbrev pub max_sse_line_tracking : ℕ
max_sse_line_tracking = 2 ^ 20

pub record Tracker : Type 0 where
  pub line : Bytes
  pub too_long : Bool
  pub done : Bool

abbrev pub new_tracker : Tracker
new_tracker = record { line = []; too_long = false; done = false }

-- The test of finishLine on a line that was kept.
unfoldable pub is_done_line : Bytes → Bool
unfolding trim_space bytes_eq
is_done_line line = bytes_eq (trim_space line) (codes "data: [DONE]")

unfoldable pub finish_line : Tracker → Tracker
finish_line t = record {
  line = [];
  too_long = false;
  done = if not t.too_long && is_done_line t.line then true else t.done;
}

-- The body of the loop of Write.
unfoldable pub track : Tracker → ℕ → Tracker
unfolding finish_line
track t current =
    if current == b'\n'
    then finish_line t
    else if t.too_long
    then t
    else if length t.line == max_sse_line_tracking
    then record t { line = []; too_long = true }
    else record t { line = t.line ++ current ∷ [] }

unfoldable pub write : Tracker → Bytes → Tracker
write t [] = t
write t (c ∷ cs) = write (track t c) cs

unfoldable pub finish : Tracker → Tracker
unfolding finish_line
finish t = if not (is_empty t.line) || t.too_long then finish_line t else t
