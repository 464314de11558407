-- ===== src/Lib.antt =====
-- rlstatsapi reads the statistics that Rocket League sends over a local socket and sends commands
-- back. This library models its pure core and its configuration file, and proves what they promise.
--
-- The program's parts. A client (src/client.rs) prepares its configuration (src/config.rs), connects,
-- and takes JSON values from the stream. src/events.rs turns a value into a `StatsEvent`;
-- src/filters.rs selects events, follows one player through them and reduces them to the signals of a
-- match; src/sos.rs translates them for other overlays. src/commands.rs checks commands, writes them
-- to the socket as JSON and reads them back from callers. src/error.rs has the errors of them all.
--
-- Where the parts stand here:
--   - Prelude, Text, Float: what the program uses of Rust. A text is the list of its code points
--     (`codes`); an `i64` is an integer of `ℤ`, a `u32` or `u16` a number below 2^32 or 2^16, where the
--     parsers check the bound; a double is `F64`: not a number, an infinity, or a sign and a whole
--     number of units of 2^-1074, with the comparisons and casts of Rust.
--   - Error: src/error.rs, and `Result` with the operator `?`.
--   - Json: the values of serde_json. They are data here; what the crate does with numbers and text is
--     the interface `JsonLib`, and what its documentation says of numbers is `JsonLaws`.
--   - Events.Data, Events.Wire: the structs of src/events.rs, `parse_event_envelope` (split at its
--     match, `event_of`), `parse_stats_event`, `parse_stats_event_value`, `stats_event_to_value`,
--     `stats_event_name`. What serde derives for the structs is the interface `Derived`.
--   - Events.Effective: `effective_speed`, `effective_boost`, `effective_boosting`,
--     `effective_supersonic`, the searches they share, and `is_bogus_goal_scored`.
--   - Commands.Defs, Commands.Wire: src/commands.rs. `read_command` is the match of
--     `StatsCommand::from_value`, `command_data` that of `StatsCommand::to_value`.
--   - Filters.Kind, Filters.Matching: `EventKind` and `EventFilter` of src/filters.rs. The set of kinds
--     is a list without repetition. Filters.Tracker: `PlayerTracker`, `PlayerSnapshot` and the signals.
--     A method that changes the tracker returns the new tracker with its result.
--   - Config.Ini: the text functions of src/config.rs. A slice that does not fall on a character's
--     boundary panics: these functions are `none` there. Config.Run, Config.Prepare:
--     `prepare_connection_config` and the functions below it, as runs on a state of the file system,
--     which end in a result, an error or a panic. std::fs is the interface `FileSystem`, of which
--     nothing is assumed. The function's local variables are the record `Draft`, and its blocks are
--     `settle_port`, `settle_rate`, `save` and `finish`. Config.Discover: the search for a default path,
--     with `env::var` and `Path::join` as parameters.
--   - Sos.Players, Sos.Teams, Sos.Translate: src/sos.rs. The arms of `translate_stats_event` that build
--     a payload of their own are the functions `ball_hit_payload`, `statfeed_payload` and
--     `goal_scored_payload`; the loops of `translate_players` and `translate_teams` are
--     `insert_players` and `index_teams`.
--   - Client.Buffer, Client.Stream, Client.Events, Client.Connection: src/client.rs. What the socket
--     delivers is a list of reads, the buffer is passed on, the stream reader of serde_json is the
--     interface `JsonStream` (its documented behaviour is `StreamLaws`), and tokio's sockets are the
--     interface `Network`.
--   - Arguments: the loop over the command line that the programs of src/bin share, as the function
--     `parse_all` of the `match` on one argument.
--   - Listener: src/bin/rl_events.rs. Listener.Kinds has the names of the kinds of events,
--     Listener.Options the command line, the filter and the client's options, Listener.Printing the
--     printed lines, Listener.Stdin the loop over the lines of the standard input, Listener.Streaming
--     the loop over the stream, as a list of what the calls of `next_event` give, with its
--     reconnecting, and Listener.Describing the announcement. The timestamps are a parameter.
--   - Mock: src/bin/mock_broadcast.rs. Mock.Random has the pseudo-random numbers, Mock.Randomizer and
--     Mock.Payload the state of `UpdateStateRandomizer` and its payloads, where a call that panics is
--     `none` and division of doubles is a parameter, Mock.Scenario the scenario and the loop that
--     sends it, Mock.Options the command line.
--   - Window: the state of the window of src/bin/sos_broadcast_gui.rs. The events that the worker has
--     sent and the window has not yet drained are in the field of the receiver, and the value of the
--     channel of shutdown in that of the sender. Window.Sound has the steps of the user, the worker and
--     the frame as a relation.
--   - Relay: the command line of src/bin/sos_relay.rs and the address of the overlay, where the crate
--     url is the interface `UrlLib`. Broadcast: the command line of src/bin/sos_broadcast.rs.
--   - Sender: src/bin/rl_command.rs, its command line and the loop that prints what comes back before
--     the deadline. Ticks: src/bin/tick_listener.rs.
--   - The other modules of each part prove: RoundTrip, Reading, Validity and Camera of commands;
--     Naming, RoundTrip, Meanings, Places and Fallbacks of events; Cast, Selecting and Following of
--     filters; Plain, Formatted, Breaking, Upserting, Found, Panics, Settling and Prepared of the
--     configuration; Guids and Lookup of SOS; Chunks, Waiting, Delivery, Malformed and Retrying of
--     the client; Tokens, Choosing, Bounds, Emitting, Strictness and Reconnecting of the listener;
--     Pool, Seen, Staying, Rounds, Selecting and Sending of the mock server; Sound and Stopping of
--     the window; Placing of the relay; Sound of the sender; Arguments.Reading of the command
--     lines. Samples instantiates the interfaces, and each part's Tests runs it there.
--
-- Fuel. `show_u32` makes at most 10 digits, as many as a number below 2^32 has; `show_i64` at most
-- 19, as many as a magnitude up to 2^63 has, and `show_usize` at most 20. `nearest` halves a
-- magnitude at most 12 times, which brings one below 2^64 under 2^53. Everything else recurs on its
-- data. `next_filtered_event` is bounded by a number of calls, of which more than the number of
-- messages suffice, and `send_loop` by a number of ticks, of which one for each envelope suffices.
-- `back_off` makes the ten rounds of the source.
--
-- Not modelled: the websocket servers and clients of src/bin, the loops that wait for a signal, the
-- drawing and the worker of src/bin/sos_broadcast_gui.rs, the Python bindings of
-- src/python_bindings.rs and the messages of src/console.rs. Reading and printing doubles is the
-- interface `FloatText`.
pub mod Prelude
pub mod Float
pub mod Text
pub mod Error
pub mod Json
pub mod Events
pub mod Commands
pub mod Config
pub mod Filters
pub mod Client
pub mod Sos
pub mod Arguments
pub mod Listener
pub mod Mock
pub mod Window
pub mod Relay
pub mod Broadcast
pub mod Sender
pub mod Ticks
pub mod Samples
