-- ===== src/SyncControl/Finish.antt =====
-- `finalize_sync_request` and `set_login_sync_cooldown` of sync_control.py.
use imtegrale.Prelude.{ℕ, ◌+◌, ◌||◌, Option, none, some, ltb, if◌then◌else◌, holds, is_none}
use imtegrale.Models.{Db, Account, SyncRequest, RequestStatus, seconds, is_active}
use imtegrale.Store.{set_request, set_account, release_slot}
use imtegrale.SyncControl.{manual_sync_cooldown_seconds}
use Prim.Native.String.{String}

-- `finalize_sync_request`; `none` is the ValueError of a status that is not terminal.
unfoldable pub finalize_sync_request :
    Account → SyncRequest → RequestStatus → Option String → Option ℕ → ℕ → Db → Option Db
finalize_sync_request account request status error_code result now db =
    if is_active status
    then none
    else some (record db {
      requests =
          set_request request.id
            (record request {
              status = status;
              completed_at = some now;
              error_code = error_code;
              result = result;
            })
            db.requests;
      accounts = set_account account.id (release_slot request.id account) db.accounts;
    })

-- `set_login_sync_cooldown`.
unfoldable pub set_login_sync_cooldown : ℕ → Account → Account
set_login_sync_cooldown accepted_at account =
    let candidate = accepted_at + seconds manual_sync_cooldown_seconds in
    if is_none account.sync_cooldown_until
      || holds (λ t. ltb t candidate) account.sync_cooldown_until
    then record account { sync_cooldown_until = some candidate }
    else account
