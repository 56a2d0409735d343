-- ===== src/TlsAead.antt =====
-- src/tls_aead: records, key derivation, the cipher and its sink and stream. The constants of mod.rs.
pub mod Frame
pub mod Secrets
pub mod Keys
pub mod Codec
pub mod StreamSink
pub mod Connection
use mls_tls_protocol.Base.{ℕ}

abbrev pub tls_app_data : ℕ
tls_app_data = 0x17

abbrev pub tls_version : ℕ
tls_version = 0x0303

-- `2 << 14`
abbrev pub tls_max_record_size : ℕ
tls_max_record_size = 32768

abbrev pub tls_hdr_size : ℕ
tls_hdr_size = 5

abbrev pub tls_aead_tag_size : ℕ
tls_aead_tag_size = 16

-- `TLS_HDR_SIZE + TLS_AEAD_TAG_SIZE + 1`
abbrev pub min_record_size : ℕ
min_record_size = 22
