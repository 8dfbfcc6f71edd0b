-- ===== src/Http.antt =====
-- net/http, as far as the SDK uses it: a request with its headers and its body, and a response with
-- its status, its Content-Type and its body.
use dappnode_nexus_sdk.Prelude.{ℕ, List}
use dappnode_nexus_sdk.Prelude.Bytes.{Bytes}
use dappnode_nexus_sdk.Jsonutil.{Reader}

pub record HttpRequest : Type 0 where
  pub method : Bytes
  pub url : Bytes
  pub headers : List (Bytes × Bytes)
  pub body : Bytes

pub record HttpResponse : Type 0 where
  pub status : ℕ
  pub content_type : Bytes
  pub body : Reader
