-- ===== src/Lib.antt =====
-- Verification of the MQTT mochad bridge: a service between mochad, the daemon of an X10 transceiver,
-- and an MQTT broker.
--
-- The parts, and the files that model them:
--   models.py              Models: the enumerations (Models/Enums), the configuration of a device
--                          (Models/Config), its state, the events and the actions (Models/Runtime)
--   protocol/validation.py Protocol/Validation, with X10Address of models.py
--   protocol/encoder.py    Protocol/Encoder
--   protocol/parser.py     Protocol/Parser: `parse_line`, with the tables of protocol/mappings.py
--   protocol/status.py     Protocol/Status: the accumulator of status lines
--   protocol/regex.py      Protocol/Regex: the patterns (Regex/Patterns), and the backtracking search of
--                          Python's `re` for the constructs that they use (Regex/Search)
--   topics.py              Topics: the names of the MQTT topics and the parsers of command topics
--   state.py               State: `StateManager`; its events in State/Methods, its outbound commands
--                          and connections in State/Connections
--   mochad_client.py       Mochad: sending lines, and the line framing of the read loop;
--                          Mochad/Lifecycle: the client's thread and a caller of `stop`, as steps
--   mqtt_client.py         Mqtt: where a message goes; `publish` is in Bridge
--   bridge.py              Bridge: its state and the status document; Bridge/Actions: the execution of
--                          actions; Bridge/Outbound: sending device commands, queueing and flushing
--                          them; Bridge/Commands: the payloads, and the checks of a command from MQTT;
--                          Bridge/Cleanup: publishing discovery again, its cleanup and its reset;
--                          Bridge/Maintenance: the commands to the bridge, and the callbacks of the
--                          connections; Bridge/Diagnostics: the reports of mochad about itself;
--                          Bridge/Lines: the callback of a line;
--                          Bridge/Inbound: the callbacks of messages from MQTT, and the status
--                          of a shutdown; Bridge/Start: the bridge that is made from a configuration,
--                          and the files that are then created; Bridge/Reload: the check of the
--                          configuration file, and a reload of the devices
--   discovery_registry.py  DiscoveryRegistry: the document of the published topics and its file
--   device_registry.py     DeviceRegistry: the profiles of products and `apply_profile`
--   discovery.py           Discovery: the blocks that messages share (Discovery/Blocks), the message of
--                          a device (Discovery/Messages), those of the bridge (Discovery/Bridge)
--   config.py              Config/Values: `int` on a text, and the bounded numbers; Config/Devices: the
--                          devices of the environment; Config/Objects: those of the file;
--                          Config/Environment: the variables, secrets and TLS settings; Config/File:
--                          what is read of the file, and the file that is created from a
--                          configuration; Config/Load: `load_config`; Config/Housecodes:
--                          `parse_housecodes`
-- Prelude, Text and Dict hold what the components share: `Result` for exceptions, Python's `str` as a
-- list of code points, and `dict` as an association list in the order of insertion.
--
-- How they interact: the parser turns a line of mochad into an event, `StateManager.apply` turns an
-- event into a list of actions, and the bridge executes the actions; a command from MQTT becomes
-- actions through `optimistic_update`. A method of the manager takes the manager and returns the
-- manager and its actions. A `DeviceState` object is the entry of its key, and a method that mutates
-- it writes it back.
--
-- Conventions. A `datetime` is a number that the code only copies; the current time is an argument. A
-- `frozenset` is the list of its members. Letter case is that of ASCII letters: upper() and lower()
-- leave code points above 127 as they are, but for U+0131 and U+017F, whose upper case is I and S, and
-- U+212A, whose lower case is k. The patterns with IGNORECASE take U+212A for k, U+0130 and U+0131 for
-- i, and U+017F for s, as Python's `re` does. The manager's lock is not modelled: a method runs whole. The
-- `TypeError` of `apply` cannot arise, since `Event` has only the classes that it tells apart. All
-- loops are structural recursion over the list that the source iterates over, but for the loop that
-- takes lines from mochad's buffer: it runs on fuel, as much as the buffer is long, which is enough
-- since every round shortens the buffer. The socket of mochad is a parameter: a function that says
-- whether the n-th write succeeds. The MQTT library is a log of what it is given to publish.
--
-- The search of a pattern repeats a star at most as often as the rest of the text has characters, which
-- is enough, since a repetition that reads nothing ends the loop in Python too. `\d` is an ASCII digit.
-- What Python's `str` makes of a list or a dict, which discovery.py writes for odd values that mochad
-- reports of itself, is a parameter.
--
-- What the registry's file holds is a JSON value, or text that is none; whether it can be replaced and
-- moved away is a part of the registry's state. `datetime.isoformat` is a parameter, as is the time.
-- Where a message quotes the text of an exception, that text is left out.
-- `json.loads` and Python's `str` of a JSON value are parameters where mochad's reports are read.
--
-- What a process finds of its environment, `os.getenv` and the contents of files, is the record
-- `Environment`; Python's floats are the record `Floats`. A number of a JSON document is a natural
-- number, and `int` reads ASCII digits. The clock and the time and size of the configuration file are
-- arguments of `check_config_file_reload`, as is what `load_config` then returns.
--
-- The thread of mochad's client and a caller of `stop` take turns in any order, a step being what happens
-- between two points at which the other may run; a connection attempt, a read and a pause may end at
-- any time.
--
-- Not modelled: in bridge.py, the start and the stop but for the status of a shutdown, and the health
-- file; in mqtt_client.py, the set-up of the MQTT library and of TLS, the texts of reason codes and the
-- callbacks of the library; `configure_logging`; the entry points and the tools. Three patterns of
-- protocol/regex.py that nothing uses are left out.
-- Sockets, files, threads, pauses and the MQTT library are I/O.
pub mod Prelude
pub mod Text
pub mod Dict
pub mod Models
pub mod Protocol
pub mod Topics
pub mod State
pub mod Mochad
pub mod Mqtt
pub mod Bridge
pub mod Config
pub mod DeviceRegistry
pub mod Discovery
pub mod DiscoveryRegistry
