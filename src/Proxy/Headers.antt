-- ===== src/Proxy/Headers.antt =====
-- internal/proxy/handler.go: the response headers that the local client gets, and randomUUID.
-- net/http's CanonicalHeaderKey, strings.ToLower and strings.Split by a comma are parameters.
use dappnode_nexus_sdk.Prelude.{
  Bool, true, false, not, ◌&&◌, ◌||◌, List, [], ◌∷◌, ◌++◌, map, if◌then◌else◌, ◌≡◌,
}
use dappnode_nexus_sdk.Prelude.Bytes.{Bytes, codes, bytes_eq}
use dappnode_nexus_sdk.Prelude.Space.{trim_space}

-- The keys of http.Header, in the order in which the loop meets them.
abbrev pub Headers : Type 0
Headers = List (Bytes × List Bytes)

abbrev pub any_eq : Bytes → List Bytes → Bool
any_eq b [] = false
any_eq b (x ∷ xs) = bytes_eq b x || any_eq b xs

unfoldable pub is_hop_by_hop_header : Bytes → Bool
is_hop_by_hop_header h = any_eq h (
    codes "Connection"
    ∷ codes "Keep-Alive"
    ∷ codes "Proxy-Authenticate"
    ∷ codes "Proxy-Authorization"
    ∷ codes "Te"
    ∷ codes "Trailer"
    ∷ codes "Transfer-Encoding"
    ∷ codes "Upgrade"
    ∷ [])

-- strings.HasPrefix
unfoldable pub has_prefix : Bytes → Bytes → Bool
has_prefix text [] = true
has_prefix [] (p ∷ ps) = false
has_prefix (t ∷ ts) (p ∷ ps) = bytes_eq (t ∷ []) (p ∷ []) && has_prefix ts ps

module _ (canonical : Bytes → Bytes) (lower : Bytes → Bytes)
    (split_comma : Bytes → List Bytes) where
  unfoldable pub allowed_response_header : Bytes → Bool
  unfolding has_prefix
  allowed_response_header h =
      any_eq (lower h) (
        codes "retry-after"
        ∷ codes "request-id"
        ∷ codes "x-request-id"
        ∷ codes "openai-request-id"
        ∷ [])
      || has_prefix (lower h) (codes "x-ratelimit-")

  abbrev named_in : List Bytes → List Bytes
  unfolding trim_space
  named_in [] = []
  named_in (v ∷ vs) = map (λ i. canonical (trim_space i)) (split_comma v) ++ named_in vs

  -- source.Values("Connection"), each split at its commas.
  unfoldable pub connection_headers : Headers → List Bytes
  unfolding named_in
  connection_headers [] = []
  connection_headers ((k, vs) ∷ hs) =
      if bytes_eq k (codes "Connection") then named_in vs else connection_headers hs

  -- The tests that skip a header.
  unfoldable pub is_skipped : List Bytes → Bytes → Bool
  unfolding is_hop_by_hop_header allowed_response_header
  is_skipped named key =
      (is_hop_by_hop_header key
        || any_eq key (
            codes "Content-Length"
            ∷ codes "Ehbp-Response-Nonce"
            ∷ codes "Ehbp-Encapsulated-Key"
            ∷ []))
      || (any_eq key named || not (allowed_response_header key))

  abbrev pub entries : Bytes → List Bytes → List (Bytes × Bytes)
  entries key [] = []
  entries key (v ∷ vs) = (key, v) ∷ entries key vs

  -- The loop, as the list of the calls of destination.Add.
  unfoldable pub copy_from : List Bytes → Headers → List (Bytes × Bytes)
  copy_from named [] = []
  copy_from named ((k, vs) ∷ hs) =
      let rest = copy_from named hs in
      if is_skipped named (canonical k) then rest else entries (canonical k) vs ++ rest

  unfoldable pub copy_response_headers : Headers → List (Bytes × Bytes)
  unfolding copy_from
  copy_response_headers source = copy_from (connection_headers source) source

  -- A header that may be copied: on the list of allowed ones, about no hop, no length and no
  -- encryption, and not named by Connection.
  pub record IsCopied (named : List Bytes) (h : Bytes × Bytes) : Type 0 where
    pub end_to_end : is_hop_by_hop_header h.0 ≡ false
    pub plain :
        any_eq h.0 (
          codes "Content-Length" ∷ codes "Ehbp-Response-Nonce" ∷ codes "Ehbp-Encapsulated-Key" ∷ [])
        ≡ false
    pub unnamed : any_eq h.0 named ≡ false
    pub allowed : allowed_response_header h.0 ≡ true
