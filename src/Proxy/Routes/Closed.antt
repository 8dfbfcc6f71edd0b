-- ===== src/Proxy/Routes/Closed.antt =====
-- internal/proxy: what a handler exposes when the optional surfaces are off.
use dappnode_nexus_sdk.Prelude.{
  ℕ, Bool, true, false, not, Option, none, some, if◌then◌else◌, ◌≡◌, refl, sym, ◌∙◌, Bool-cases,
  inl, inr, if_true, if_false,
}
use dappnode_nexus_sdk.Prelude.Bytes.{Bytes, bytes_eq, bytes_eq_iff}
use dappnode_nexus_sdk.Prelude.Result.{Result}
use dappnode_nexus_sdk.Prelude.Time.{Time}
use dappnode_nexus_sdk.Ledger.{Ledger}
use dappnode_nexus_sdk.Proxy.Routes.{
  Incoming, Handler, Answer, Routed, to_chat, answered, http_not_found, health_path, chat_path,
  ui_path, api_path, document_path, models_path, allow_verification, serve_health, serve_models,
  serve_verification_ui, serve_verification_api, serve_verification_document, dispatch,
}

-- The chat path and the health check, and nothing else.
unfoldable pub closed_dispatch : Incoming → Routed
closed_dispatch r =
    if bytes_eq r.path health_path
    then answered (serve_health r)
    else if bytes_eq r.path chat_path
    then to_chat
    else answered http_not_found

other_path :
    (path p q : Bytes) → bytes_eq path p ≡ true → bytes_eq p q ≡ false → bytes_eq path q ≡ false
other_path path p q h d = rw ((bytes_eq_iff path p).0 h) d

allow_verification-off :
    (ui : Bool) (l : Option Ledger) (r : Incoming) (serve : Ledger → Answer)
    → ui ≡ false
    → allow_verification ui l r serve ≡ http_not_found
allow_verification-off ui none r serve h = refl
allow_verification-off ui (some l) r serve h = rw h refl

module _ {E : Type 0} (h : Handler) (now : Time) (fetched : ℕ × Result E Bytes) (r : Incoming)
    (no_ui : h.verification_ui ≡ false) (no_catalog : h.catalog ≡ false) where
  models-off : serve_models h fetched r ≡ http_not_found
  unfolding serve_models
  models-off = rw no_catalog refl

  -- A path that leads to an answer of 404, and is neither of the two that are open.
  closed_path :
      (p : Bytes) (a : Answer)
      → bytes_eq r.path health_path ≡ false
      → bytes_eq r.path p ≡ true
      → bytes_eq p chat_path ≡ false
      → a ≡ http_not_found
      → answered a ≡ closed_dispatch r
  unfolding closed_dispatch
  closed_path p a t u d e = rw (t, other_path r.path p chat_path u d, e) refl

  -- The paths of the optional surfaces lead to 404.
  off_ui : serve_verification_ui h r ≡ http_not_found
  unfolding serve_verification_ui
  off_ui = allow_verification-off h.verification_ui h.ledger r _ no_ui

  off_api : serve_verification_api h now r ≡ http_not_found
  unfolding serve_verification_api
  off_api = allow_verification-off h.verification_ui h.ledger r _ no_ui

  off_document : serve_verification_document h r ≡ http_not_found
  unfolding serve_verification_document
  off_document = allow_verification-off h.verification_ui h.ledger r _ no_ui

  chat_or_not_found :
      bytes_eq r.path health_path ≡ false
      → (if not (bytes_eq r.path chat_path) then answered http_not_found else to_chat)
        ≡ closed_dispatch r
  unfolding closed_dispatch
  chat_or_not_found t = elim (Bool-cases (bytes_eq r.path chat_path)) [
    | inl u ↦ rw (t, u) refl
    | inr u ↦ rw (t, u) refl
  ]

  -- A handler with neither the verification surface nor the catalog answers the health check,
  -- takes the chat path, and gives 404 to every other path, whatever the method.
  pub dispatch-closed : dispatch h now fetched r ≡ closed_dispatch r
  unfolding dispatch closed_dispatch bytes_eq
  dispatch-closed = elim (Bool-cases (bytes_eq r.path health_path)) [
    | inl t ↦ if_true _ _ _ t ∙ sym (if_true _ _ _ t)
    | inr t ↦ if_false _ _ _ t ∙ elim (Bool-cases (bytes_eq r.path ui_path)) [
      | inl u ↦ if_true _ _ _ u ∙ closed_path ui_path _ t u refl off_ui
      | inr u ↦ if_false _ _ _ u ∙ elim (Bool-cases (bytes_eq r.path api_path)) [
        | inl v ↦ if_true _ _ _ v ∙ closed_path api_path _ t v refl off_api
        | inr v ↦ if_false _ _ _ v ∙ elim (Bool-cases (bytes_eq r.path document_path)) [
          | inl w ↦ if_true _ _ _ w ∙ closed_path document_path _ t w refl off_document
          | inr w ↦ if_false _ _ _ w ∙ elim (Bool-cases (bytes_eq r.path models_path)) [
            | inl x ↦ if_true _ _ _ x ∙ closed_path models_path _ t x refl models-off
            | inr x ↦ if_false _ _ _ x ∙ chat_or_not_found t
          ]
        ]
      ]
    ]
  ]
