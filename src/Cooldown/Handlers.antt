-- ===== src/Cooldown/Handlers.antt =====
-- The two handlers of internal/server/cooldown.go: the status of a target by its names, and its release.
-- `Stamp` is what the reply prints of a time or of a span; `format` and `seconds` are `time.Time.Format`
-- and the whole seconds of `time.Time.Sub`, from the earlier time to the later.
use tiller_router.Prelude.{
  ℕ, String, str_eq, ◌≡◌, ◌||◌, Option, none, some, if◌then◌else◌, arith, Bool-cases, inl, inr,
}
use tiller_router.Cooldown.{CooldownEntry, CooldownStore, status_by_name, remove_by_name}
use tiller_router.Cooldown.WellFormed.{WellFormed}
use tiller_router.Cooldown.Release.{status_by_name-remove_by_name}

pub record CoolingReply (Stamp : Type 0) : Type 0 where
  pub provider : String
  pub model : String
  pub started_at : Stamp
  pub until_at : Stamp
  pub ago_seconds : Stamp
  pub restored_in_seconds : Stamp
  pub origin_request_id : String
  pub origin_error_class : String
  pub origin_error_message : String

-- 400 invalid_request, 200 with "cooling": false, 200 with "cooling": true.
pub data StatusReply (Stamp : Type 0) : Type 0 where
  missing_parameters : StatusReply Stamp
  not_cooling : String → String → StatusReply Stamp
  cooling : CoolingReply Stamp → StatusReply Stamp

module _ {Stamp : Type 0} (format : ℕ → Stamp) (seconds : ℕ → ℕ → Stamp) where
  status_reply : String → String → ℕ → Option CooldownEntry → StatusReply Stamp
  status_reply provider model now none = not_cooling provider model
  status_reply provider model now (some entry) = cooling (record {
    provider = entry.provider;
    model = entry.model;
    started_at = format entry.started_at;
    until_at = format entry.until;
    ago_seconds = seconds entry.started_at now;
    restored_in_seconds = seconds now entry.until;
    origin_request_id = entry.origin_request_log_id;
    origin_error_class = entry.origin_error_class;
    origin_error_message = entry.origin_error_message;
  })

  pub cooldown_status : CooldownStore → String → String → String → ℕ → StatusReply Stamp
  unfolding status_reply
  cooldown_status c account provider model now =
      if str_eq provider "" || str_eq model ""
      then missing_parameters
      else status_reply provider model now (status_by_name c account provider model now)

pub data ClearReply : Type 0 where
  bad_request no_content : ClearReply

pub clear_cooldown : CooldownStore → String → String → String → CooldownStore × ClearReply
clear_cooldown c account provider model =
    if str_eq provider "" || str_eq model ""
    then (c, bad_request)
    else ((remove_by_name c account provider model).0, no_content)

-- In a well-formed store: a release through the API that is not refused makes the status API report
-- the pair as not cooling, at any time; one that is refused for a missing parameter changes nothing.
pub clear_then_status :
    {Stamp : Type 0} (format : ℕ → Stamp) (seconds : ℕ → ℕ → Stamp) (c : CooldownStore)
    (account provider model : String) (now : ℕ)
    → WellFormed c
    → ((clear_cooldown c account provider model).1 ≡ no_content
        → cooldown_status format seconds
            (clear_cooldown c account provider model).0
            account
            provider
            model
            now
          ≡ not_cooling provider model)
      × ((clear_cooldown c account provider model).1 ≡ bad_request
          → (clear_cooldown c account provider model).0 ≡ c)
unfolding clear_cooldown cooldown_status
clear_then_status format seconds c account provider model now w =
    let gone = status_by_name-remove_by_name c account provider model now w in
    elim (Bool-cases (str_eq provider "" || str_eq model "")) [
      | inl missing ↦ (λ h. ground arith, λ h. ground arith)
      | inr given ↦ (λ h. ground (arith, gone), λ h. ground arith)
    ]
