-- ===== src/Lib.antt =====
-- shclaw: an orchestrator of LLM agents in C. A daemon runs a few agents, each with a memory, a
-- schedule and an inbox; people reach it over IRC and through a terminal client, and it keeps its
-- state in text files. This library models its own code, the files under src/ and include/; paths
-- are from the repository's root.
--
-- The parts and the files that model them:
--   * Base: bytes as C strings, lists over the native numbers, signed integers, and the insertion
--     sort that scheduler.c and memory.c write out (Base/Sort).
--   * Util, src/util.c: buf_appendf (Util/Buf), utf8_prefix and utf8_scrub (Util/Utf8).
--   * Session, src/session.c: the ring of the owner's conversation (Session/Chat: chat_init,
--     chat_expire, chat_add, chat_id, chat_render) and the session files (Session/Store:
--     session_create, session_add_message, session_set_status).
--   * Irc, src/irc_parse.c and src/irc.c: parse_mentions, which decides what part of a message goes
--     to which agent (Irc/Mentions); the client's state machine, framing and everything it sends
--     (Irc/Client: handle_line, irc_poll as irc_receive, irc_connect, irc_keepalive,
--     irc_disconnect); replies cut into pieces (Irc/Reply); runs of all these calls (Irc/Calls).
--   * Scheduler, src/scheduler.c: sched_parse_time with format_time of src/util.c
--     (Scheduler/Time); interval_seconds and check_task (Scheduler/Check); sched_add, sched_update,
--     sched_cancel, sched_get_due and sched_mark_done (Scheduler/Tasks); sched_list
--     (Scheduler/Tasks/Listing).
--   * Memory, src/memory.c: memory_add, extract_tags, load_cache and memory_clear (Memory/Log),
--     memory_search (Memory/Search), facts_set, facts_get and facts_clear (Memory/Facts).
--   * Messenger, src/messenger.c: messenger_register, messenger_resolve, messenger_send and
--     messenger_receive. The order in which a directory is read is left open.
--   * Sock, src/sock.c: sock_send and sock_read_cmd.
--   * Ini, src/ini.c: ini_load and what it calls, ini_get, ini_get_int and ini_get_bool.
--   * Http, src/http.c: has_ctl, encode_path and parse_url (Http/Url), http_dechunk
--     (Http/Body).
--   * Json, src/util.c: j_str, j_int and j_bool, on the members of an object.
--   * Daemon, src/daemon.c: the queue of triggers and start_session (Daemon/Start), dispatch and
--     session_worker (Daemon/Dispatch), irc_lost and irc_maintain (Daemon/Link), and how the
--     configuration is read: load_providers, load_tiers and daemon_resolve_provider
--     (Daemon/Providers), load_agents and the choice of the hub (Daemon/Config).
--   * Tools, src/tools.c: the table of the tools, tool_find and which tools tools_to_json offers
--     (Tools/Table), tool_check_args (Tools, and Tools/Choices for what a list of choices admits),
--     and agent_message (Tools/Message).
--   * ToolExec, src/tool_exec.c: child_collect and tool_exec_cmd.
--   * Agent, src/agent.c: the history with conv_fit and trim_history (Agent/History), repeated_call
--     (Agent/Repeats), builder_extract_code (Agent/Extract), and a session: its trigger and state
--     (Agent/Session/State), run_tool (Agent/Session/Call), a turn with after_text_reply
--     (Agent/Session/Turn), and agent_run_session with deliver_answer (Agent/Session/Run). Its model,
--     its tools and its messages are a `System`, which answers as it likes; what the session does is
--     a list of events.
--   * Tests: the theorems at concrete inputs, and runs of the code.
--
-- How the code is read. A C string is the list of its bytes before the NUL, and a write into a
-- buffer of `sz` bytes keeps `sz - 1` of them. A function that changes an object takes its state and
-- returns the new one. The mutex of an object makes each of its operations one step. A file that is
-- written atomically is a value, and a Boolean says whether the save succeeds; JSON documents are
-- records of the members that the code reads and writes. What the code asks of its environment is an
-- argument: the clock, the fresh ids, the bytes that arrive. The code of others is a parameter: the
-- calendar of the C library, `atoi`, `strtoul` and `%d`, cJSON's parser, printer and comparison of
-- names. What the theorems ask of them is written as a hypothesis, of the values that occur.
--
-- How the parts interact: irc_poll hands a message to on_irc_trigger, which puts it into the queue;
-- dispatch starts a session with it, with the mails that messenger_receive gives or with the tasks
-- that are due; a session runs tools, whose arguments are checked, and sends its answers through
-- the messenger, whose names (Messenger/Names) it takes to fit their field.
--
-- Loops are structural where the source walks along a text or a list. Five run on fuel: the pieces
-- of a reply, the chunks of a body, and the discarding of what is too long of a message get a round
-- for each byte, and every round takes one at least; the loop that moves a past time on gets a round
-- for each second that is missing; conv_fit gets a round for each message, and every round takes one
-- out at least. The turns of a session are bounded by the source. `time_t` and sizes are taken as
-- unbounded; the hash of repeated_call is taken modulo 2^64.
--
-- Not modelled: sockets, TLS, threads and the poll loop (src/sock.c, src/ca.c, most of src/http.c,
-- the control socket of src/daemon.c), the calls of the model providers (src/provider.c), what the
-- tools do (execute_tool of src/tools.c), the texts of prompts (build_first_turn and
-- its like in src/agent.c), plugins (src/plugin.c), the terminal (src/tui.c, src/main.c) and the log
-- (src/log.c).
pub mod Base
pub mod Util
pub mod Session
pub mod Irc
pub mod Scheduler
pub mod Memory
pub mod Messenger
pub mod Sock
pub mod Ini
pub mod Http
pub mod Daemon
pub mod Json
pub mod Tools
pub mod ToolExec
pub mod Agent
mod Tests
