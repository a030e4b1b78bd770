-- ===== src/UpstreamError/Examples.antt =====
-- A relay that wraps the provider's error in its own.
use tiller_router.Prelude.{str_eq, false, none, some, if◌then◌else◌, arith}
use tiller_router.ErrorText.{ErrorDetail, object, Texts}
use tiller_router.UpstreamError.{unwrap_error_detail, parse_upstream_error_detail}
use tiller_router.UpstreamError.Unwrap.{
  Settles, Keeps, unwrap_error_detail-Settles, Short, parse_upstream_error_detail-Short,
}

abbrev provider_error : ErrorDetail
provider_error = record { message = "too long"; code = ""; param = "input"; class = "invalid" }

-- One body is an envelope, and its error is the provider's.
abbrev texts : Texts
texts = record {
  trim = λ s. s;
  lower = λ s. s;
  contains = λ s t. str_eq s t;
  join_fields = λ s. s;
  is_control = λ c. false;
  envelope = λ s. if str_eq s "{inner}" then some (object provider_error, "") else none;
}

abbrev relay_error : ErrorDetail
relay_error = record { message = "{inner}"; code = "400"; param = ""; class = "relay" }

unwrap_error_detail-Settles_example :
    Settles texts 3 relay_error (unwrap_error_detail texts relay_error)
    × Keeps texts relay_error (unwrap_error_detail texts relay_error)
unwrap_error_detail-Settles_example = unwrap_error_detail-Settles texts relay_error

parse_upstream_error_detail-Short_example :
    Short (parse_upstream_error_detail texts "{inner}" false)
parse_upstream_error_detail-Short_example =
    parse_upstream_error_detail-Short texts "{inner}" false (λ t. omega arith)
