-- ===== src/Push/Sender.antt =====
-- apps/api/src/fcm.sender.ts: how the answers of Firebase are classified. The Firebase client is an
-- argument: what it answered, as data.
use moeen.Base.{
  ◌&&◌, ◌==◌, ◌||◌, ◌∷◌, Bool, List, Option, Outcome, Text, [], all, any, codes, err, false,
  if◌then◌else◌, is_empty, leb, length, map, none, not, ok, some, text_eq, ℕ,
}
use moeen.Ids.Public.{after_prefix}
use moeen.Outbox.Worker.{DeviceResult, Sending}

pub data FcmSendOutcome : Type 0 where
  sent bad_token lost_token transient misconfigured : FcmSendOutcome

pub record FcmErrorClassification : Type 0 where
  pub outcome : FcmSendOutcome
  pub error_code : Text
  pub throttled : Bool

abbrev pub permanent_token_error_codes : List Text
permanent_token_error_codes =
    codes "messaging/registration-token-not-registered"
    ∷ codes "messaging/invalid-registration-token"
    ∷ codes "messaging/sender-id-mismatch"
    ∷ []

abbrev pub config_error_codes : List Text
config_error_codes =
    codes "messaging/mismatched-credential"
    ∷ codes "messaging/invalid-package-name"
    ∷ codes "messaging/invalid-apns-credentials"
    ∷ codes "messaging/authentication-error"
    ∷ codes "messaging/invalid-credential"
    ∷ codes "messaging/invalid-recipient"
    ∷ codes "messaging/invalid-payload"
    ∷ codes "messaging/invalid-data-payload-key"
    ∷ codes "messaging/payload-size-limit-exceeded"
    ∷ codes "messaging/invalid-options"
    ∷ codes "app/invalid-credential"
    ∷ codes "app/invalid-argument"
    ∷ []

abbrev pub throttled_error_codes : List Text
throttled_error_codes =
    codes "messaging/quota-exceeded"
    ∷ codes "messaging/resource-exhausted"
    ∷ codes "messaging/message-rate-exceeded"
    ∷ codes "messaging/device-message-rate-exceeded"
    ∷ codes "messaging/topics-message-rate-exceeded"
    ∷ []

abbrev pub has : List Text → Text → Bool
has set code = any (text_eq code) set

unfoldable pub is_permanent_code : Text → Bool
is_permanent_code code = has permanent_token_error_codes code

unfoldable pub is_config_code : Text → Bool
is_config_code code =
    has config_error_codes code || text_eq code (codes "messaging/invalid-argument")

unfoldable pub is_throttled_code : Text → Bool
is_throttled_code code = has throttled_error_codes code

unfoldable pub is_lost_code : Text → Bool
is_lost_code code = text_eq code (codes "messaging/registration-token-not-registered")

-- `[a-z0-9-]{1,80}` up to the end.
abbrev pub is_code_char : ℕ → Bool
is_code_char c = (leb 97 c && leb c 122) || ((leb 48 c && leb c 57) || c == 45)

abbrev pub is_code_name : Option Text → Bool
is_code_name none = false
is_code_name (some cs) = not (is_empty cs) && (leb (length cs) 80 && all is_code_char cs)

unfoldable pub is_sdk_code : Text → Bool
unfolding after_prefix
is_sdk_code code =
    is_code_name (after_prefix (codes "messaging/") code)
    || (is_code_name (after_prefix (codes "app/") code)
        || is_code_name (after_prefix (codes "auth/") code))

abbrev pub unknown_error : FcmErrorClassification
unknown_error = record {
  outcome = FcmSendOutcome.transient;
  error_code = codes "unknown_error";
  throttled = false;
}

-- The classification of a code of the right shape.
unfoldable pub classify_code : Text → FcmErrorClassification
classify_code code =
    if is_permanent_code code
    then record {
      outcome = if is_lost_code code then FcmSendOutcome.lost_token else FcmSendOutcome.bad_token;
      error_code = code;
      throttled = false;
    }
    else if is_config_code code
    then record { outcome = FcmSendOutcome.misconfigured; error_code = code; throttled = false }
    else record {
      outcome = FcmSendOutcome.transient;
      error_code = code;
      throttled = is_throttled_code code;
    }

-- classifyFcmSendError, on the `code` of the error, where it is a text.
unfoldable pub classify_fcm_send_error : Option Text → FcmErrorClassification
unfolding classify_code
classify_fcm_send_error none = unknown_error
classify_fcm_send_error (some code) = if is_sdk_code code then classify_code code else unknown_error

pub data FcmBatchErrorKind : Type 0 where
  network_failure batch_throttling batch_misconfigured : FcmBatchErrorKind

-- The kind of the FcmBatchSendError for a rejected call.
abbrev pub batch_error_kind : FcmErrorClassification → FcmBatchErrorKind
batch_error_kind c = elim c.outcome [
  | FcmSendOutcome.misconfigured ↦ FcmBatchErrorKind.batch_misconfigured
  | _ ↦
      if c.throttled then FcmBatchErrorKind.batch_throttling else FcmBatchErrorKind.network_failure
]

-- One response for one token: a success, or an error that may have a code.
pub data FcmResponse : Type 0 where
  success : FcmResponse
  failure : Option Text → FcmResponse

-- What sendEachForMulticast did: it was rejected with an error, or answered for each token.
pub data Multicast : Type 0 where
  rejected : Option Text → Multicast
  responses : List FcmResponse → Multicast

pub record FcmDeviceSendResult : Type 0 where
  pub outcome : FcmSendOutcome
  pub error_code : Option Text

abbrev pub send_result : FcmResponse → FcmDeviceSendResult
send_result success = record { outcome = FcmSendOutcome.sent; error_code = none }
send_result (failure code) =
    let c = classify_fcm_send_error code in
    record { outcome = c.outcome; error_code = some c.error_code }

-- sendToDevices; the reference to the token is left out of the results.
unfoldable pub send_to_devices : Multicast → Outcome FcmBatchErrorKind (List FcmDeviceSendResult)
unfolding classify_fcm_send_error
send_to_devices (rejected code) = err (batch_error_kind (classify_fcm_send_error code))
send_to_devices (responses rs) = ok (map send_result rs)

-- How fcm-dispatch.worker.ts reads a result: it has its own three codes for throttling.
abbrev pub worker_throttling_codes : List Text
worker_throttling_codes =
    codes "messaging/quota-exceeded"
    ∷ codes "messaging/resource-exhausted"
    ∷ codes "messaging/message-rate-exceeded"
    ∷ []

abbrev pub is_throttling : Option Text → Bool
is_throttling none = false
is_throttling (some code) = has worker_throttling_codes code

abbrev pub to_device_result : FcmDeviceSendResult → DeviceResult
to_device_result r = elim r.outcome [
  | FcmSendOutcome.sent ↦ DeviceResult.delivered_to
  | FcmSendOutcome.bad_token ↦ DeviceResult.invalid_token
  | FcmSendOutcome.lost_token ↦ DeviceResult.unregistered_token
  | FcmSendOutcome.misconfigured ↦ DeviceResult.config_error
  | FcmSendOutcome.transient ↦ DeviceResult.transient_error (is_throttling r.error_code)
]

abbrev pub to_sending : Outcome FcmBatchErrorKind (List FcmDeviceSendResult) → Sending
to_sending (ok rs) = Sending.results (map to_device_result rs)
to_sending (err FcmBatchErrorKind.batch_misconfigured) = Sending.batch_config_error
to_sending (err FcmBatchErrorKind.batch_throttling) = Sending.batch_throttled
to_sending (err FcmBatchErrorKind.network_failure) = Sending.other_exception
