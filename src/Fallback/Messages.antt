-- ===== src/Fallback/Messages.antt =====
-- internal/server/error_message.go: the fixed message of a failure class. What the source makes of an
-- `http_<code>` class with Go's strconv and net/http is an argument.
use tiller_router.Prelude.{String, str_eq, List, [], ◌∷◌, if◌then◌else◌}

-- The cases of the switch, in order.
unfoldable pub fixed_messages : List (String × String)
fixed_messages =
    ("upstream_timeout", "Upstream request timed out")
    ∷ ("upstream_unreachable", "Could not reach upstream provider")
    ∷ ("upstream_read_error", "Could not read upstream provider response")
    ∷ ("empty_response", "The upstream provider returned no content")
    ∷ ("upstream_stream_error", "The upstream provider reported a stream error")
    ∷ ("upstream_stream_incomplete", "The upstream provider reported an incomplete response")
    ∷ ("upstream_stream_eof", "The upstream stream ended before completion")
    ∷ ("upstream_response_too_large", "Upstream provider response exceeded Tiller's size limit")
    ∷ (
      "context_limit_exceeded",
      "The request exceeds this target's context window. Shorten the conversation or use a target with a larger context window.",
    )
    ∷ (
      "reasoning_roundtrip_required",
      "The upstream provider requires the reasoning_content from earlier assistant turns to be passed back when tools are used. Include each prior assistant message's reasoning_content in the conversation and retry.",
    )
    ∷ ("model_not_found", "The requested model was not found or is not configured")
    ∷ ("database_error", "Internal database error while resolving the request")
    ∷ ("client_cancelled", "The client cancelled the request")
    ∷ ("client_timeout", "The client request timed out")
    ∷ ("translation_error", "Failed to translate the request for the upstream provider")
    ∷ ("unsupported_feature", "The request uses a feature not supported by the upstream provider")
    ∷ ("invalid_request", "The request was rejected as invalid")
    ∷ ("upstream_error", "The upstream provider returned an error")
    ∷ ("protocol_unavailable", "No compatible protocol is available for this request")
    ∷ (
      "free_model_requires_keyless",
      "This OpenCode free-tier model must be served without a credential",
    )
    ∷ ("free_tier_rejected", "OpenCode declined the free-tier request for third-party relay")
    ∷ ("virtual_model_unavailable", "All targets for the virtual model are currently unavailable")
    ∷ ("model_unavailable", "The requested model is currently unavailable")
    ∷ ("invalid_upstream", "The upstream provider endpoint could not be resolved")
    ∷ []

unfoldable pub switch : List (String × String) → (String → String) → String → String
switch [] default class = default class
switch ((name, message) ∷ cases) default class =
    if str_eq class name then message else switch cases default class

unfoldable pub fixed_upstream_error_message : (String → String) → String → String
unfolding switch fixed_messages
fixed_upstream_error_message http_status_error_message class =
    switch fixed_messages http_status_error_message class
