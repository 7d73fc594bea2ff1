-- ===== src/Errors/Kinds.antt =====
-- pkg/errors/types.go: the constants of type `ErrKind`.
use go_mod_edge_utils.Errors.{ErrKind}

abbrev pub kind_database_error : ErrKind
kind_database_error = "Database"

abbrev pub kind_communication_error : ErrKind
kind_communication_error = "Communication"

abbrev pub kind_entity_does_not_exist : ErrKind
kind_entity_does_not_exist = "NotFound"

abbrev pub kind_contract_invalid : ErrKind
kind_contract_invalid = "ContractInvalid"

abbrev pub kind_server_error : ErrKind
kind_server_error = "UnexpectedServerError"

abbrev pub kind_limit_exceeded : ErrKind
kind_limit_exceeded = "LimitExceeded"

abbrev pub kind_status_conflict : ErrKind
kind_status_conflict = "StatusConflict"

abbrev pub kind_duplicate_name : ErrKind
kind_duplicate_name = "DuplicateName"

abbrev pub kind_invalid_id : ErrKind
kind_invalid_id = "InvalidId"

abbrev pub kind_service_unavailable : ErrKind
kind_service_unavailable = "ServiceUnavailable"

abbrev pub kind_not_allowed : ErrKind
kind_not_allowed = "NotAllowed"

abbrev pub kind_service_locked : ErrKind
kind_service_locked = "ServiceLocked"

abbrev pub kind_not_implemented : ErrKind
kind_not_implemented = "NotImplemented"

abbrev pub kind_range_not_satisfiable : ErrKind
kind_range_not_satisfiable = "RangeNotSatisfiable"

abbrev pub kind_io_error : ErrKind
kind_io_error = "IOError"

abbrev pub kind_overflow_error : ErrKind
kind_overflow_error = "OverflowError"

abbrev pub kind_nan_error : ErrKind
kind_nan_error = "NaNError"

abbrev pub kind_unauthorized : ErrKind
kind_unauthorized = "Unauthorized"

abbrev pub kind_authentication_failure : ErrKind
kind_authentication_failure = "AuthenticationFailure"

abbrev pub kind_payload_decode_failure : ErrKind
kind_payload_decode_failure = "PayloadDecodeFailure"

abbrev pub kind_timeout : ErrKind
kind_timeout = "Timeout"

abbrev pub kind_forbidden : ErrKind
kind_forbidden = "Forbidden"
