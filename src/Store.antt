-- ===== src/Store.antt =====
-- Reading and writing single rows by primary key, as the ORM session does, and the small
-- expressions that the transactions share.
use imtegrale.Prelude.{ℕ, Option, none, some, List, ◌==◌, if◌then◌else◌, is_some_of}
use imtegrale.Query.{update, find}
use imtegrale.Models.{Db, Account, SyncRequest, DurableJob, NotificationOutbox}
use Prim.Native.String.{String}
use text.Mathlib.Text.{◌==◌ as str_eq}

-- What a transaction takes from its surroundings.
pub record Context : Type 0 where
  pub now : ℕ
  pub new_id : ℕ
  pub correlation_id : Option ℕ

-- `value or default` for text, where "" is false.
abbrev pub or_text : Option String → String → String
or_text none default = default
or_text (some s) default = if str_eq s "" then default else s

abbrev pub or_id : Option ℕ → Option ℕ → Option ℕ
or_id none default = default
or_id (some a) _ = some a

abbrev pub set_job : ℕ → DurableJob → List DurableJob → List DurableJob
set_job id row = update (λ j. j.id == id) (λ _. row)

abbrev pub set_request : ℕ → SyncRequest → List SyncRequest → List SyncRequest
set_request id row = update (λ r. r.id == id) (λ _. row)

abbrev pub set_account : ℕ → Account → List Account → List Account
set_account id row = update (λ a. a.id == id) (λ _. row)

abbrev pub set_message : ℕ → NotificationOutbox → List NotificationOutbox → List NotificationOutbox
set_message id row = update (λ m. m.id == id) (λ _. row)

abbrev pub get_request : ℕ → Db → Option SyncRequest
get_request request_id db = find (λ r. r.id == request_id) db.requests

abbrev pub get_account : ℕ → Db → Option Account
get_account account_id db = find (λ a. a.id == account_id) db.accounts

abbrev pub interrupted : String
interrupted = "La synchronisation interrompue peut être relancée."

-- The slot of the account is released if `request` holds it.
abbrev pub release_slot : ℕ → Account → Account
release_slot request_id account =
    if is_some_of request_id account.sync_active_request_id
    then record account { sync_active_request_id = none; sync_active_until = none }
    else account
