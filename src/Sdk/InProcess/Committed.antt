-- ===== src/Sdk/InProcess/Committed.antt =====
-- client.go: what the caller of the in-process transport gets, against a reading of the handler's
-- events that keeps no state: the first event that commits to an answer decides it.
use dappnode_nexus_sdk.Prelude.{
  ℕ, Bool, true, false, Option, none, some, List, [], ◌∷◌, ◌++◌, if◌then◌else◌, ◌≡◌, refl, ap, ◌∙◌,
}
use dappnode_nexus_sdk.Prelude.Bytes.{Bytes}
use dappnode_nexus_sdk.Sdk.InProcess.{
  HandlerError, Writer, Event, set_header, write_header, write, flush, finish, status_ok,
  new_writer, do_write_header, do_write, do_flush, do_finish, fail_ready, finish_once, step, run,
}

pub data Answer (H : Type 0) : Type 0 where
  pending : Answer H
  answered : ℕ → H → Answer H
  refused : HandlerError → Answer H

-- What RoundTrip reads of the writer.
abbrev pub View : Type 0 → Type 0
View H = Bool × ℕ × Option HandlerError × Option H

module _ {H : Type 0} where
  -- The answer that the events commit to, from the header `h` on.
  unfoldable pub answer : H → List (Event H) → Answer H
  answer h [] = pending
  answer h (set_header h' ∷ es) = answer h' es
  answer h (write_header s ∷ es) = answered s h
  answer h (write b ∷ es) = answered status_ok h
  answer h (flush ∷ es) = answered status_ok h
  answer h (finish none ∷ es) = answered status_ok h
  answer h (finish (some e) ∷ es) = refused e

  -- The bytes written before the handler finished, and how it finished.
  unfoldable pub transcript : List (Event H) → Bytes × Option (Option HandlerError)
  transcript [] = ([], none)
  transcript (finish e ∷ es) = ([], some e)
  transcript (write b ∷ es) = let (more, e) = transcript es in (b ++ more, e)
  transcript (set_header h ∷ es) = transcript es
  transcript (write_header s ∷ es) = transcript es
  transcript (flush ∷ es) = transcript es

  abbrev pub view : Writer H → View H
  view w = (w.ready, w.status, w.terminal_err, w.response_header)

  abbrev pub shown : Answer H → View H
  shown pending = (false, 0, none, none)
  shown (answered s h) = (true, s, none, some h)
  shown (refused e) = (true, 0, some e, none)

  opened : ℕ → Writer H → Writer H
  opened s w = record w { status = s; response_header = some w.header; ready = true }

  kept : (s : ℕ) (w : Writer H) → w.ready ≡ true → do_write_header s w ≡ w
  unfolding do_write_header
  kept s w r =
      ap
        (λ b.
          if b then w else record w { status = s; response_header = some w.header; ready = true })
        r

  opens : (s : ℕ) (w : Writer H) → w.ready ≡ false → do_write_header s w ≡ opened s w
  unfolding do_write_header opened
  opens s w r =
      ap
        (λ b.
          if b then w else record w { status = s; response_header = some w.header; ready = true })
        r

  if_same : (b : Bool) (w w' : Writer H) → view w' ≡ view w → view (if b then w else w') ≡ view w
  if_same true w w' h = refl
  if_same false w w' h = h

  -- Once ready, no event changes what RoundTrip reads.
  step-view : (e : Event H) (w : Writer H) → w.ready ≡ true → view (step e w) ≡ view w
  unfolding do_write do_flush do_finish
  step-view (set_header h) w r = refl
  step-view (write_header s) w r = ap view (kept s w r)
  step-view (write b) w r = ap view (kept status_ok w r)
  step-view flush w r = ap view (kept status_ok w r)
  step-view (finish none) w r = if_same w.finished w _ (ap view (kept status_ok w r))
  step-view (finish (some e)) w r =
      if_same w.finished w _
        (ap (λ b. view (if b then w else record w { terminal_err = some e; ready = true })) r)

  ready_run : (es : List (Event H)) (w : Writer H) → w.ready ≡ true → view (run es w) ≡ view w
  unfolding run
  ready_run [] w r = refl
  ready_run (e ∷ es) w r =
      let h = step-view e w r in ready_run es (step e w) (ap (λ v. v.0) h ∙ r) ∙ h

  record Fresh (h : H) (w : Writer H) : Type 0 where
    nothing : view w ≡ shown pending
    unfinished : w.finished ≡ false
    headed : w.header ≡ h

  -- Events that commit, on a writer that has not.
  committed :
      (es : List (Event H)) (w : Writer H) (s : ℕ) (h : H)
      → view w ≡ shown (answered s h)
      → view (run es w) ≡ shown (answered s h)
  committed es w s h e = ready_run es w (ap (λ v. v.0) e) ∙ e

  opened-view :
      (s : ℕ) (h : H) (w : Writer H) → Fresh h w → view (do_write_header s w) ≡ shown (answered s h)
  unfolding opened
  opened-view s h w f =
      ap view (opens s w (ap (λ v. v.0) f.nothing))
      ∙ (ap (λ v. (true, s, v.2, some w.header)) f.nothing
          ∙ ap (λ x. (true, s, none, some x)) f.headed)

  failed-view :
      (e : HandlerError) (h : H) (w : Writer H)
      → Fresh h w
      → view (fail_ready e w) ≡ shown (refused e)
  failed-view e h w f =
      ap (λ b. view (if b then w else record w { terminal_err = some e; ready = true }))
        (ap (λ v. v.0) f.nothing)
      ∙ ap (λ v. (true, v.1, some e, v.3)) f.nothing

  run-view :
      (es : List (Event H)) (h : H) (w : Writer H)
      → Fresh h w
      → view (run es w) ≡ shown (answer h es)
  unfolding run answer do_write do_flush do_finish
  run-view [] h w f = f.nothing
  run-view (set_header h' ∷ es) h w f =
      run-view es h' (record w { header = h' })
        (record { nothing = f.nothing; unfinished = f.unfinished; headed = refl })
  run-view (write_header s ∷ es) h w f =
      committed es (do_write_header s w) s h (opened-view s h w f)
  run-view (write b ∷ es) h w f =
      committed es (do_write b w) status_ok h (opened-view status_ok h w f)
  run-view (flush ∷ es) h w f =
      committed es (do_write_header status_ok w) status_ok h (opened-view status_ok h w f)
  run-view (finish none ∷ es) h w f = committed es (do_finish none w) status_ok h (
      ap (λ b. view (if b then w else record (finish_once none w) { finished = true })) f.unfinished
      ∙ opened-view status_ok h w f)
  run-view (finish (some e) ∷ es) h w f =
      let start : view (do_finish (some e) w) ≡ shown (refused e) =
        ap (λ b. view (if b then w else record (finish_once (some e) w) { finished = true }))
          f.unfinished
        ∙ failed-view e h w f in
      ready_run es (do_finish (some e) w) (ap (λ v. v.0) start) ∙ start

  new_writer-Fresh : (h : H) → Fresh h (new_writer h)
  new_writer-Fresh h = record { nothing = refl; unfinished = refl; headed = refl }

  -- The status, the headers and the error that the caller sees are those of the first event that
  -- commits to an answer, with the headers set before it, whatever events come after.
  pub run-Shown : (h : H) (es : List (Event H)) → view (run es (new_writer h)) ≡ shown (answer h es)
  run-Shown h es = run-view es h (new_writer h) (new_writer-Fresh h)
