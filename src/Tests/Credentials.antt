-- ===== src/Tests/Credentials.antt =====
-- An enrolment, its replacement and the emergency stop.
use imtegrale.Prelude.{◌+◌, ◌≡◌, refl, false, not, some, [], ◌∷◌, All, Memᴰ, is_none, ◌==◌}
use imtegrale.Events.{record_event}
use imtegrale.Tests.Samples.{account}
use imtegrale.Credentials.{
  SyncCredential, State, Sealer, Enrolment, RevocationReason, new_credential, is_active, replaced,
}
use imtegrale.Credentials.Operations.{
  enroll_verified_credential, enroll_locked, revoke_all_sync_credentials, is_autonomous_mode,
  revoked_row,
}
use imtegrale.Credentials.Lifecycle.{Reach, here, next, enrolled, revoked_all, envelope_iff_active}
use imtegrale.Credentials.Generations.{HasSuccessor, generation_names_row, revoke_all-stops}

abbrev sealer : Sealer
sealer = record {
  seal = λ password _ _ generation _.
      some (record { envelope = password + generation; version = 1; key_id = 5 });
  size = λ _. 3_172;
  is_key_id = λ k. k == 5;
}

abbrev enrolment : Enrolment
enrolment = record {
  account_id = 1;
  expected_login = 31;
  verified_password = 600;
  consent_version = 1;
  actor = "owner";
}

abbrev empty : State
empty = record {
  db = record {
    accounts = account 1 ∷ [];
    requests = [];
    jobs = [];
    outbox = [];
    events = [];
    next_event_id = 1;
  };
  credentials = [];
  imt_username = λ a. 30 + a;
  session_exists = λ _. false;
}

abbrev first_row : SyncCredential
first_row = new_credential enrolment 4 100 (record { envelope = 601; version = 1; key_id = 5 })

abbrev enrolled_once : State
enrolled_once = (enroll_verified_credential sealer enrolment 4 100 empty).1

enrolled_row : enrolled_once.credentials ≡ first_row ∷ []
unfolding enroll_verified_credential enroll_locked
enrolled_row = refl

-- Enrolled, enrolled again, and stopped.
abbrev stopped : State
stopped =
    (revoke_all_sync_credentials RevocationReason.operator_revoked "operator" 300
      (enroll_verified_credential sealer enrolment 5 200 enrolled_once).1).1

abbrev last_row : SyncCredential
last_row =
    revoked_row RevocationReason.operator_revoked 300
      (replaced enrolment 200 (record { envelope = 602; version = 1; key_id = 5 }) first_row)

to_stopped : Reach sealer enrolled_once stopped
to_stopped =
    next (next here (enrolled enrolment 5 200))
      (revoked_all RevocationReason.operator_revoked "operator" 300)

envelope_iff_active_example : is_active last_row ≡ not (is_none last_row.encrypted_envelope)
unfolding enroll_verified_credential enroll_locked revoke_all_sync_credentials record_event
envelope_iff_active_example =
    envelope_iff_active {sealer = sealer} {s = enrolled_once} {c = last_row} (refl, tt) to_stopped
      (Memᴰ.head refl)

generation_names_row_example : HasSuccessor 1 first_row stopped.credentials
unfolding enroll_verified_credential enroll_locked
generation_names_row_example = generation_names_row 1 first_row to_stopped refl

revoke_all-stops_example :
    let t =
      (revoke_all_sync_credentials RevocationReason.operator_revoked "operator" 300
        enrolled_once).1 in
    All (λ c. is_active c ≡ false) t.credentials
    × All (λ a. is_autonomous_mode a ≡ false) t.db.accounts
revoke_all-stops_example =
    revoke_all-stops RevocationReason.operator_revoked "operator" 300 enrolled_once
