-- ===== src/Api/Listener.antt =====
-- api/listener.go: which records have a listener, and how it is stopped.
--
-- A `context.CancelFunc` is the number of its context; calling it is noted in `cancelled`.
pub mod Live
use cli.Base.{
  ℕ, ◌≡◌, String, Bool, true, false, not, ◌||◌, Option, none, some, List, [], ◌∷◌, ◌++◌, is_some,
  if◌then◌else◌,
}
use cli.Base.Maps.{Map, lookup, insert, delete}
use cli.Api.Errors.{ConfigError, already_listening, not_listening, invalid_state}
use cli.Proto.Records.{ListenerStatus}

-- `listenerStatusEntry`
pub record Entry : Type 0 where
  pub cancel : Option ℕ
  pub status : ListenerStatus

pub record Listeners : Type 0 where
  pub entries : Map Entry
  pub cancelled : List ℕ

abbrev pub no_status : ListenerStatus
no_status = record { listening = false; listen_addr = none; last_error = none }

abbrev pub listening_at : String → ListenerStatus
listening_at addr = record { listening = true; listen_addr = some addr; last_error = none }

unfoldable pub set_listening : String → ℕ → String → Listeners → Listeners × Option ConfigError
set_listening id cancel addr l =
    if is_some (lookup id l.entries) then (l, some already_listening) else (
      record l {
        entries = insert id (record { cancel = some cancel; status = listening_at addr }) l.entries;
      },
      none,
    )

abbrev pub status_of : Option Entry → ListenerStatus
status_of none = no_status
status_of (some e) = e.status

unfoldable pub get_listener_status : String → Listeners → ListenerStatus
get_listener_status id l = status_of (lookup id l.entries)

abbrev pub cancel_context : ℕ → Listeners → Listeners
cancel_context n l = record l { cancelled = l.cancelled ++ n ∷ [] }

abbrev stop_entry : String → Listeners → Bool → Option ℕ → Listeners × Option ConfigError
stop_entry id l false cancel = (l, some not_listening)
stop_entry id l true none = (l, some not_listening)
stop_entry id l true (some n) =
    (record { entries = delete id l.entries; cancelled = l.cancelled ++ n ∷ [] }, none)

abbrev stop : String → Listeners → Option Entry → Listeners × Option ConfigError
stop id l none = (l, some not_listening)
stop id l (some e) = stop_entry id l e.status.listening e.cancel

unfoldable pub set_not_listening : String → Listeners → Listeners × Option ConfigError
set_not_listening id l = stop id l (lookup id l.entries)

unfoldable pub set_listener_error : String → String → Listeners → Listeners × Option ConfigError
set_listener_error id message l =
    if is_some (lookup id l.entries) then (l, some invalid_state) else (
      record l {
        entries =
            insert id
              (record {
                cancel = none;
                status = record {
                  listening = false;
                  listen_addr = none;
                  last_error = some message;
                };
              })
              l.entries;
      },
      none,
    )
