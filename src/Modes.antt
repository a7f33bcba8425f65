-- ===== src/Modes.antt =====
-- The synchronisation modes: backend/app/sync_modes.py.
use imtegrale.Prelude.{Bool, true, false, Option, none, some}
use imtegrale.Models.{AutoSync, SyncMode, known, other}
use SyncMode.{manual, session_only, autonomous}

-- `stored_sync_mode`.
abbrev pub stored_sync_mode : AutoSync → Option SyncMode
stored_sync_mode account = elim account.mode [
  | none ↦ none
  | some raw ↦ elim raw [ known mode ↦ some mode | other _ ↦ none ]
]

abbrev runnable : Bool → Option SyncMode
runnable true = some autonomous
runnable false = none

-- `effective_sync_mode`.
unfoldable pub effective_sync_mode : Bool → AutoSync → Option SyncMode
effective_sync_mode autonomous_runtime_enabled account = elim account.enabled [
  | false ↦ some manual
  | true ↦ elim (stored_sync_mode account) [
    | none ↦ none
    | some mode ↦ elim mode [
      | autonomous ↦ runnable autonomous_runtime_enabled
      | manual ↦ some session_only
      | session_only ↦ some session_only
    ]
  ]
]

-- `stored_sync_mode_is_supported`: a missing mode is, a text that names no mode is not.
unfoldable pub stored_sync_mode_is_supported : Bool → AutoSync → Bool
stored_sync_mode_is_supported autonomous_runtime_enabled account = elim account.mode [
  | none ↦ true
  | some raw ↦ elim raw [
    | other _ ↦ false
    | known mode ↦ elim mode [
      | manual ↦ true
      | session_only ↦ true
      | autonomous ↦ autonomous_runtime_enabled
    ]
  ]
]

-- `sync_mode_is_automatic` and `sync_mode_requires_credential`.
abbrev pub sync_mode_is_automatic : SyncMode → Bool
sync_mode_is_automatic manual = false
sync_mode_is_automatic session_only = true
sync_mode_is_automatic autonomous = true

abbrev pub sync_mode_requires_credential : SyncMode → Bool
sync_mode_requires_credential manual = false
sync_mode_requires_credential session_only = false
sync_mode_requires_credential autonomous = true
