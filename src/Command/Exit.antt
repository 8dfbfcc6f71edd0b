-- ===== src/Command/Exit.antt =====
-- cmd/nexus-proxy/main.go: run, as the exit status and the calls it makes in order, given what its
-- callees return. Deferred calls stand where they are made, the last first. The flushes of the
-- ticker and the log are left out.
use dappnode_nexus_sdk.Prelude.{ℕ, Bool, true, false, List, [], ◌∷◌, ◌++◌, ◌≡◌, refl}
use dappnode_nexus_sdk.Prelude.Result.{Result, ok, err}
use dappnode_nexus_sdk.Command.{CommandConfig, FlagError, help}

-- sdk.Flush, server.Shutdown, listener.Close and sdk.Close.
pub data Call : Type 0 where
  flush shutdown close_listener close_sdk : Call

-- What server.Serve returned: http.ErrServerClosed or nothing, or another error.
pub data Served : Type 0 where
  closed broken : Served

-- The select: the server stopped by itself, or a signal came; then Shutdown's success and what
-- Serve returned after it.
pub data Stop : Type 0 where
  server : Served → Stop
  signal : Bool → Served → Stop

-- nexus.New, net.Listen and the end of the server, as far as run comes to them.
pub record World : Type 0 where
  pub new_succeeds : Bool
  pub listen_succeeds : Bool
  pub stop : Stop

abbrev pub status_of : Served → ℕ
status_of closed = 0
status_of broken = 1

abbrev pub deferred : List Call
deferred = close_listener ∷ close_sdk ∷ []

abbrev pub stopped : Stop → ℕ × List Call
stopped (server s) = (status_of s, deferred)
stopped (signal false s) = (1, flush ∷ shutdown ∷ deferred)
stopped (signal true s) = (status_of s, flush ∷ shutdown ∷ deferred)

abbrev pub listening : Bool → Stop → ℕ × List Call
listening false s = (1, close_sdk ∷ [])
listening true s = stopped s

abbrev pub with_sdk : Bool → Bool → Stop → ℕ × List Call
with_sdk false listen s = (1, [])
with_sdk true listen s = listening listen s

unfoldable pub run : Result FlagError CommandConfig → World → ℕ × List Call
run (err help) w = (0, [])
run (err e) w = (2, [])
run (ok c) w = with_sdk w.new_succeeds w.listen_succeeds w.stop

abbrev ClosedLast : List Call → Type 0
ClosedLast cs = (before : List Call) × (cs ≡ before ++ close_sdk ∷ [])

stopped-ClosedLast : (s : Stop) → ClosedLast (stopped s).1
stopped-ClosedLast (server s) = (close_listener ∷ [], refl)
stopped-ClosedLast (signal false s) = (flush ∷ shutdown ∷ close_listener ∷ [], refl)
stopped-ClosedLast (signal true s) = (flush ∷ shutdown ∷ close_listener ∷ [], refl)

listening-ClosedLast : (listen : Bool) (s : Stop) → ClosedLast (listening listen s).1
listening-ClosedLast false s = ([], refl)
listening-ClosedLast true s = stopped-ClosedLast s

-- Once New has succeeded, run ends by closing the SDK, which flushes the history, however it comes
-- to its end.
run-ClosedLast :
    (c : CommandConfig) (w : World) → w.new_succeeds ≡ true → ClosedLast (run (ok c) w).1
unfolding run
run-ClosedLast c w h = rw h (listening-ClosedLast w.listen_succeeds w.stop)
