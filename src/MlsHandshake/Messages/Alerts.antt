-- ===== src/MlsHandshake/Messages/Alerts.antt =====
-- The alerts of src/mls_handshake/messages.rs. Nothing sends or reads them yet.
use mls_tls_protocol.Base.{ℕ}

pub data AlertLevel : Type 0 where
  warning fatal : AlertLevel

pub data AlertDescription : Type 0 where
  unexpected_message handshake_failure decode_error decrypt_error protocol_version :
      AlertDescription

pub record Alert : Type 0 where
  pub level : AlertLevel
  pub description : AlertDescription

-- The discriminants, as a byte.
abbrev level_code : AlertLevel → ℕ
level_code warning = 1
level_code fatal = 2

abbrev description_code : AlertDescription → ℕ
description_code unexpected_message = 10
description_code handshake_failure = 40
description_code decode_error = 50
description_code decrypt_error = 51
description_code protocol_version = 70
