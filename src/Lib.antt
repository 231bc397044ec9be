-- ===== src/Lib.antt =====
-- sigaw shows who speaks in a Discord voice channel on top of a game. A daemon (src/daemon) follows the
-- voice channel over Discord's local socket and writes the voice state into shared memory; a graphics
-- layer (src/layer) reads it there and draws; a launcher (src/run) puts the layer into a game; both sides
-- read one configuration file (src/common/config.h).
--
-- Which file models what:
--   Text           the C and C++ library functions on text: isspace, tolower, to_string, stoull, stoi; Text/Print
--                  reads a printed number back.
--   Json           src/daemon/json_utils.h. nlohmann::json is the parameter JsonLib of Json/Interface, and
--                  its laws, JsonLaws, say that an unsigned number is below 2 ^ 64. `at` is event["data"].
--                  JsonText has what the connection builds, parses and dumps.
--   Voice          src/daemon/voice_runtime.h and the records of src/daemon/discord_ipc.h. Voice/State has
--                  the records, Voice/Sync the sync with the selected channel (schedule_channel_sync,
--                  sync_pending_channel), Voice/Events the events (process_voice_event). The template
--                  parameter Ipc is the record IpcLib of Voice/Ipc, an explicit state, of which Discord/Connection
--                  is DiscordIpc. Voice/Ledger adds to any connection a ledger of the calls of
--                  subscribe_channel and unsubscribe_channel made on it, with lemmas that it changes nothing
--                  in sync_pending_channel and process_voice_event; Voice/Balanced has the theorems. Whether Discord grants a subscription is not
--                  known to the code, which ignores the result.
--   Chat           src/daemon/chat_runtime.h: Chat/Defs has the operations, Chat/Text, Chat/Messages,
--                  Chat/Events and Chat/Timing their theorems. The clock is an argument. Chat/Follow is
--                  refresh_chat_state and what it calls in src/daemon/main.cpp.
--   Protocol       the voice state image of src/common/protocol.h, without its padding.
--   Shm            src/daemon/shm_writer.h and update_shm of src/daemon/main.cpp (Shm/Strings, Shm/Writer,
--                  with theorems in Shm/Fill, Shm/Entries, Shm/Image), and the sequence lock: read of
--                  src/layer/shm_reader.h beside the writer as a relation of steps (Shm/Seqlock,
--                  Shm/Consistent).
--   Visibility     src/layer/overlay_visibility.h. std::sort is an insertion sort.
--   Config         src/common/config.h: Config/Types the record, Config/Text the parts of a line,
--                  Config/Apply the entries, Config/File the parser, Config/Save the rewriting of a file;
--                  Config/Effect, Config/Parsed, Config/Profiles and Config/Rewrite have theorems. `float` with
--                  std::stof and std::to_string is the parameter FloatLib; Config/Sections describes the lines that
--                  a save rewrites. A map is the list of its
--                  entries in the order of an iteration. Config/Store is load and save: a disk has the text
--                  of the file, split into lines as std::getline does, and says what comes of opening and
--                  writing it. Config/Trimmed, Config/Items, Config/Lines and Config/Roundtrip read a new
--                  file back.
--   Tray           src/daemon/tray_actions.cpp.
--   Swapchain      src/layer/swapchain_bookkeeping.h: the table of slots, with handles as numbers and pointers
--                  to slots as indices.
--   Launcher       src/run/launcher_env.cpp.
--   Socket         read_all and write_all of src/daemon/discord_ipc.h, which src/daemon/control_server.h and
--                  src/ctl/main.cpp have once more (Socket/Defs), with what they get (Socket/Transfer) and the
--                  words of a header (Socket/Words).
--   Discord        the class DiscordIpc of src/daemon/discord_ipc.h: Discord/Frame has send and recv,
--                  Discord/Inbox DiscordMessageInbox, Discord/Wait wait_for_response and poll_event,
--                  Discord/Requests send_request, sub and unsub, Discord/Replies the two queries,
--                  Discord/Session connect, handshake, authenticate and authorize, in the calls of
--                  Discord/Call; Discord/Connection makes an IpcLib of them. Discord/Arrivals says which messages
--                  arrive over a socket. Discord/Wire, Discord/Waiting, Discord/Deadline, Discord/AuthState and
--                  Discord/Authorize have theorems.
--   Control        src/daemon/control_server.h (Control/Server) and src/ctl/main.cpp (Control/Client), over the
--                  messages of src/common/protocol.h (Control/Wire); both ends in Control/Exchange, many
--                  clients in Control/Pending.
--   Daemon         src/daemon/main.cpp: Daemon/TrayLoop is process_tray_actions, Daemon/Loop a round of the
--                  event loop and what stands around it. It drives the modules Voice, Chat, Shm, Config, Tray
--                  and Control; the connection is IpcLib, as in Voice, and polling it a parameter. Daemon/Steps,
--                  Daemon/TraySteps, Daemon/Chat and Daemon/Displayed prepare Daemon/Published and Daemon/Start,
--                  and Daemon/Balanced has the theorems on any connection with a ledger.
--   Overlay        src/common/overlay_frame_shm.h: Overlay/Frame the frames and the shared memory objects, each under
--                  its inode, Overlay/Writer OverlayFrameWriter, Overlay/Reader OverlayFrameReader, with
--                  Overlay/Mapped and Overlay/Shown about both.
--   Prelude        shared names, tests and lemmas; Tests has runs at concrete inputs.
--
-- Conventions. A function that changes an object takes it and returns it. An index into a string or a
-- list that only moves forward is the rest of the text. Times are natural numbers, in nanoseconds for the
-- voice sync and in milliseconds for the chat. A machine word keeps its wrap-around where the code can reach
-- it (the sequence number, the counts of update_shm). A socket is the bytes to come, the bytes sent, and the
-- numbers of bytes that the kernel grants to the calls of `read` and `write`; a grant of 0, or none left, is
-- the end of the stream or an error. A `read` that never comes back is no grant: in wait_for_response and
-- poll_event the round is `stalled` then, and elsewhere what is said is said of calls that come back. What a loop that waits sees, round by round, is a list: what pump_events
-- and poll return and the time; those of a request are a function of its nonce. What happens during a round
-- of the event loop is the record Inputs.
--
-- Bounds and fuel. A loop that waits runs on the list of its rounds, and the loop over the messages on the
-- times of its calls; a list that ends first gives a loop that is still running (`again`, or `none`), and
-- the program itself need not leave it. The loops of read_all and write_all run on the grants of the
-- socket and end with them. The scan of LD_PRELOAD runs on the length of the text and one more, of which
-- each round takes a byte at least; the digits of a number n on n + 1. The sequence lock is right while
-- the sequence number has not wrapped around, 2 ^ 64 steps. Its memory is sequentially consistent: the
-- fences of the code are what gives the reader this view.
--
-- Not modelled: opening, binding and connecting sockets, paths, permissions and signals; threads and
-- libcurl, whose answer is a parameter of authorize; the loop that reconnects in src/daemon/main.cpp with its
-- waits, the status report of src/ctl/main.cpp, the configuration watcher, the policy for Wine;
-- the Vulkan and OpenGL hooks, the renderer, the layout, the tray icon and the avatar cache, which call the
-- graphics driver, the desktop or HTTP, or compute in floating point.
pub mod Prelude
pub mod Text
pub mod Json
pub mod Voice
pub mod Chat
pub mod Protocol
pub mod Visibility
pub mod Launcher
pub mod Config
pub mod Tray
pub mod Shm
pub mod Swapchain
pub mod Socket
pub mod Discord
pub mod Control
pub mod Daemon
pub mod Overlay
pub mod Tests
