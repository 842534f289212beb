-- ===== src/Soniox/Protocol.antt =====
-- src/asr/soniox/protocol.rs: the wire types, error classification and control tokens.
-- A token's `confidence` (an f64 that the crate never reads) is left out.
use larmindon_core.Base.{ℕ, Bool, ◌||◌, Option, none, some, List, [], ◌∷◌, or_default}
use larmindon_core.Text.{Text, codes, text_eq, trim, contains_text}

abbrev pub token_end : Text
token_end = codes "<end>"

abbrev pub token_fin : Text
token_fin = codes "<fin>"

pub record SonioxToken : Type 0 where
  pub text : Text
  pub start_ms : Option ℕ
  pub end_ms : Option ℕ
  pub is_final : Bool
  pub speaker : Option Text
  pub language : Option Text
  pub source_language : Option Text
  pub translation_status : Option Text

-- `t == TOKEN_END || t == TOKEN_FIN` for the trimmed text.
unfoldable pub is_special : SonioxToken → Bool
is_special token = let t = trim token.text in text_eq t token_end || text_eq t token_fin

unfoldable pub is_end_marker : SonioxToken → Bool
is_end_marker token = text_eq (trim token.text) token_end

-- The speaker trimmed; an empty one is absent.
abbrev non_empty : Text → Option Text
non_empty [] = none
non_empty (c ∷ cs) = some (c ∷ cs)

abbrev normalize : Option Text → Option Text
normalize none = none
normalize (some s) = non_empty (trim s)

unfoldable pub normalized_speaker : SonioxToken → Option Text
normalized_speaker token = normalize token.speaker

pub record SonioxResponse : Type 0 where
  pub tokens : List SonioxToken
  pub final_audio_proc_ms : ℕ
  pub total_audio_proc_ms : ℕ
  pub finished : Bool
  pub error_code : Option ℕ
  pub error_type : Option Text
  pub error_message : Option Text
  pub more_info : Option Text
  pub request_id : Option Text

pub record SonioxError : Type 0 where
  pub error_type : Text
  pub message : Text
  pub retryable : Bool

abbrev retryable_types : List Text
retryable_types =
    codes "request_timeout"
    ∷ codes "max_duration_reached"
    ∷ codes "limit_exceeded"
    ∷ codes "internal_error"
    ∷ codes "service_unavailable"
    ∷ []

unfoldable pub is_retryable : Text → Bool
is_retryable error_type = contains_text retryable_types error_type

-- An error is a response with an `error_type`.
unfoldable pub error : SonioxResponse → Option SonioxError
error r = elim r.error_type [
  | none ↦ none
  | some error_type ↦ some (record {
    error_type = error_type;
    message = or_default r.error_message error_type;
    retryable = is_retryable error_type;
  })
]
