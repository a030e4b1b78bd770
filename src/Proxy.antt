-- ===== src/Proxy.antt =====
-- internal/server/client.go, `proxy`: the data of a request that goes through its targets.
-- What the outside answers is a `World`: for the n-th turn of the loop and the target that it tries, what
-- the turn finds. A turn reads the client's context at its head and once after the response. Left out:
-- the bodies and headers, latencies, log lines, live events, and the text of the messages.
pub mod Attempt
pub mod Loop
pub mod Relay
mod Rules
mod Ends
mod Survives
mod Serves
mod Prefers
mod Fixed
mod Examples
mod Invariants
mod Tells
mod Errors
mod Sends
mod Stores
mod Effects
mod Legs
mod Balance
mod Isolation
mod Records
mod Successes
mod Refreshes
use tiller_router.Prelude.{ℕ, String, str_eq, Bool, Option, List}
use tiller_router.Cooldown.{CooldownStore}
use tiller_router.Inflight.{InflightTracker}
use tiller_router.Fallback.{Row, Candidate, ClientContext}

-- The fields of `resolvedRoute` that the loop reads of the route.
pub record Route : Type 0 where
  pub virtual : Bool
  pub routing_mode : String
  pub route_model_id : String

unfoldable pub ordered : Route → Bool
ordered route = str_eq route.routing_mode "ordered_fallback"

-- The fields of `resolvedRoute` that it reads of a candidate. `oauth` is the AuthMode that
-- `providers.Lookup` finds for the type.
pub record Target : Type 0 where
  pub candidate : Candidate
  pub provider_id : String
  pub provider_type : String
  pub credential : String
  pub oauth : Bool
  pub available : Bool

-- checkMinOutputTokens
pub data MinOutput : Type 0 where
  met unreadable below : MinOutput

-- The errors of `translateRequestObserved`.
pub data Untranslated : Type 0 where
  unsupported other_error : Untranslated

unfoldable pub translation_code : Untranslated → String
translation_code unsupported = "unsupported_feature"
translation_code other_error = "translation_error"

-- What a turn finds before it sends: `IsOpenCodeFreeModel`, `compatibleProtocol`, the error of
-- `translateRequestObserved`, the normalizers, the minimum, the endpoint and the request.
pub record Checks : Type 0 where
  pub free_model : Bool
  pub speaks : Bool
  pub translation : Option Untranslated
  pub normalized : Bool
  pub min_output : MinOutput
  pub has_endpoint : Bool
  pub builds : Bool

-- preflightResponseLimit
pub data Preflight : Type 0 where
  within too_large unread : Preflight

-- probeUpstreamOutput, with its error
pub data Probe : Type 0 where
  usable stream_error empty broken : Probe

-- A response with its headers. `timed_out` is the timer of the attempt; `body_read`, `body_empty`,
-- `context_limit`, `roundtrip` and `free_tier` are about the body of an error; `refreshes` says that
-- `ForceOAuthRefresh` succeeds.
pub record Answer : Type 0 where
  pub status : ℕ
  pub timed_out : Bool
  pub body_read : Bool
  pub body_empty : Bool
  pub context_limit : Bool
  pub roundtrip : Bool
  pub free_tier : Bool
  pub refreshes : Bool
  pub streaming : Bool
  pub preflight : Preflight
  pub probe : Probe

-- upstreamClient.Do: an error, of a timeout or not, or a response.
pub data Response : Type 0 where
  unreached : Bool → Response
  answered : Answer → Response

pub record Turn : Type 0 where
  pub started : ClientContext
  pub now : ℕ
  pub checks : Checks
  pub response : Response
  pub context : ClientContext
  pub failed_at : ℕ

-- `http_class` is fmt.Sprintf("http_%d", status), `http_message` is `httpStatusErrorMessage`.
pub record World : Type 0 where
  pub http_class : ℕ → String
  pub http_message : String → String
  pub find : ℕ → Target → Turn

-- What is fixed while the request runs. `non_streaming` is `clientNonStreaming`.
pub record Request : Type 0 where
  pub client_key_id : String
  pub route : Route
  pub cooldown_seconds : ℕ
  pub non_streaming : Bool

-- The variables of the loop with the stores that it changes. `committed` says that the keepalive writer
-- is there, `tick` counts the turns, `refreshed` are the keys of `oauthRefreshed`.
pub record Run : Type 0 where
  pub cooldown : CooldownStore
  pub tracker : InflightTracker
  pub row : Row
  pub refreshed : List String
  pub protocol_unavailable : Bool
  pub translation_failure_class : String
  pub non_translation_failure : Bool
  pub terminal_preflight_class : String
  pub skipped_cooled : Bool
  pub committed : Bool
  pub tick : ℕ

-- An error for the client: the status and code of a JSON body, or, `framed`, a failure frame with the
-- code on the stream that is already open.
pub record Reply : Type 0 where
  pub status : ℕ
  pub code : String
  pub framed : Bool

-- How a turn ends: `continue`, `i--; continue`, `return`, and `goto routeDone`.
pub data Step : Type 0 where
  next again : Run → Step
  stop : Run → Reply → Step
  select : Run → Answer → Step
