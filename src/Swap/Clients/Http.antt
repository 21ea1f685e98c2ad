-- ===== src/Swap/Clients/Http.antt =====
-- net/http as pkg/escrow/swap uses it: a request, and what the server answers.
use ark_escrow.Base.{ℕ, Str, Option}
use ark_escrow.Swap.Clients.Json.{Json}

-- The authorization is the macaroon's header, or the user and the password.
pub data Authorization : Type 0 where
  macaroon_header : Str → Authorization
  basic_auth : Str → Str → Authorization

pub data Method : Type 0 where
  get post : Method

-- A body is the JSON value that is marshalled.
pub record Request : Type 0 where
  pub method : Method
  pub url : Str
  pub body : Option Json
  pub authorization : Authorization

-- `body` is `none` where reading it fails.
pub record Response : Type 0 where
  pub status_code : ℕ
  pub body : Option Str

-- `none` is an error of Do.
abbrev pub Server : Type 0
Server = Request → Option Response
