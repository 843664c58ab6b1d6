-- ===== src/Ingress/Storage.antt =====
-- What the ingress of typed records asks of its storage, the class StorageRuntime of
-- src/backend/StorageRuntime.h: `J` is the type of the metadata, QJsonObject. A call that may fail
-- returns its success and the text of its error.
use Prim.Native.String.{String}
use vsm_field_workstation.Prelude.{ℕ, Bool}
use vsm_field_workstation.Typed.{TypedRecord}

pub record StorageOps (S J : Type 0) : Type 0 where
  pub is_active : S → Bool
  pub start_typed_session : String → J → S → (Bool × String) × S
  pub append_typed_record : TypedRecord → S → (Bool × String) × S
  pub finalize_typed_session : S → (Bool × String) × S
  pub session_dir : S → String
  pub bytes_written : S → ℕ
  pub record_count : S → ℕ
