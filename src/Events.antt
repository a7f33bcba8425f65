-- ===== src/Events.antt =====
-- backend/app/services/events.py: the journal of an account keeps its newest rows.
use imtegrale.Prelude.{
  ℕ, ◌+◌, ◌-◌, Bool, none, some, List, [], ◌∷◌, ◌++◌, ◌&&◌, ltb, leb, ◌==◌, drop,
}
use imtegrale.Query.{select, first, delete, order_by}
use imtegrale.Models.{Db, Event, Detail}
use Prim.Native.String.{String}

-- `MAX_EVENTS_PER_ACCOUNT` of limits.py.
abbrev pub max_events_per_account : ℕ
max_events_per_account = 2_000

abbrev of_account : ℕ → Event → Bool
of_account account_id e = e.account_id == account_id

-- `.order_by(Event.id.desc())`
abbrev newest_first : Event → Event → Bool
newest_first a b = leb b.id a.id

unfoldable pub prune_events : ℕ → List Event → List Event
prune_events account_id events =
    elim (first (
      drop (max_events_per_account - 1)
        (order_by newest_first (select (of_account account_id) events)))) [
          | none ↦ events
          | some cutoff ↦ delete (λ e. of_account account_id e && ltb e.id cutoff.id) events
        ]

unfoldable pub record_event : ℕ → String → List Detail → String → Db → Db
unfolding prune_events
record_event account_id kind payload actor db =
    let event : Event = record {
      id = db.next_event_id;
      account_id = account_id;
      kind = kind;
      payload = payload;
      actor = actor;
    } in
    record db {
      events = prune_events account_id (db.events ++ event ∷ []);
      next_event_id = db.next_event_id + 1;
    }
