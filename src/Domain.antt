-- ===== src/Domain.antt =====
-- internal/domain/models.go and internal/service/constants.go: the records and the limits that the
-- components share. An id is a number, a text the list of its bytes.
use pentaract.Prelude.{ℕ, ◌*◌, ◌-◌, List, Bool}

pub record Storage : Type 0 where
  pub id : ℕ
  pub name : List ℕ
  pub chat_id : ℕ

pub record File : Type 0 where
  pub id : ℕ
  pub path : List ℕ
  pub size : ℕ
  pub storage_id : ℕ
  pub is_uploaded : Bool

pub record FileChunk : Type 0 where
  pub id : ℕ
  pub file_id : ℕ
  pub telegram_file_id : List ℕ
  pub telegram_message_id : ℕ
  pub position : ℕ

abbrev pub max_telegram_get_file_bytes : ℕ
max_telegram_get_file_bytes = 20 * 1024 * 1024

abbrev pub upload_chunk_safety_margin : ℕ
upload_chunk_safety_margin = 64 * 1024

abbrev pub upload_chunk_size : ℕ
upload_chunk_size = max_telegram_get_file_bytes - upload_chunk_safety_margin
