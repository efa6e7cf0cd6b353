-- ===== src/Lib.antt =====
-- nexo-plugin-email: a model of the e-mail plugin (the Rust crate under src/).
--
-- The plugin sends and receives mail for agents. Outbound, a tool or the broker hands a command to
-- the dispatcher, which builds the message and appends a job to the queue file of the account; a
-- worker for each account drains that queue against the SMTP server and publishes an ack for each
-- outcome. Inbound, a worker for each account fetches mail over IMAP, drops bounces and loops,
-- resolves the thread and publishes an event.
--
-- Parts and files:
--   Base                 Rust's str as lists of code points, maps, decimals, lists, tests
--   Events               src/events.rs: the payloads
--   OutboundQueue        src/outbound_queue.rs: the JSONL queue of an account. A file is the list of
--                        its lines; an operation is the list of its file writes, so that a crash is
--                        a prefix. Children: Latest (read_latest_per_id), Pending (what is pending),
--                        Ids, Listing (list_pending), Compaction, DeadLetters (trim_dlq)
--   MimeBuild            src/mime_build.rs: the bytes of an outbound message. Child: Html
--   Outbound             src/outbound.rs: drain_tick and handle_outcome of OutboundWorker, with the
--                        queue, the counters and the published acks as the worker's state. Children:
--                        Backoff, Outcome (one job), Drain (one tick), Sends (one job over all ticks)
--   Dispatcher           src/outbound.rs: DispatcherCore, the entry to the queues
--   Threading            src/threading.rs: message ids, thread roots, References chains
--   LoopPrevent          src/loop_prevent.rs: the mail that is not published
--   Dsn                  src/dsn.rs: delivery reports. Children: Fields, Report
--   CursorStore          src/cursor.rs, with the child Reset
--   AttachmentStore      src/attachment_store.rs, with the child Sweep
--   BounceStore          src/bounce_store.rs. Children: Record, Prune, Summary (with Totals,
--                        Classes, Top, Listed)
--   Inbound              src/inbound.rs: drain_pending and the opening of a mailbox, with the stores
--                        and what goes to the broker as the state. Children: Drain,
--                        Bootstrap, Loop (run, connect_select_and_loop, idle_loop and poll_loop as
--                        steps, with the reported health) with the child Reach
--   MimeText             src/mime_parse.rs: truncate_utf8. Child: Prefix
--   MimeParse            src/mime_parse.rs: write_dedup and its files. Children: Attach (the loop over
--                        the attachments), Eml (the rest of parse_eml), Files, Intact (the directory),
--                        Outcome, Bounds
--   Reload               src/reload.rs: the difference of two configurations. Child: Diff
--   ImapQuote            src/tool/imap_op.rs, src/tool/uid_set.rs, src/tool/label.rs: text in IMAP
--                        commands. Child: Injection
--   Health, Config       src/health.rs, src/config.rs: the records
--   InboundManager       src/inbound.rs: the manager of the workers that read
--   OutboundDispatcher   src/outbound.rs: the manager of the workers that send, and
--                        src/outbound_queue.rs: the opening of a queue
--   Plugin               src/plugin.rs: start, reload and stop over both managers. Children: Spawn
--                        (one operation), Loops and Apply (a reload), Boot (a start, then a reload),
--                        Errors, Daily (the daily task), Lifecycle (all reachable states) with the
--                        children Consistent and Reach
--   AutoDiscovery        src/auto_discovery.rs: the sender of a pairing request. Children: Pieces,
--                        Sender, Routes (HTTP routes and admin methods), Tenants
--   EnvConfig            src/env_config.rs: the boot from the environment. Child: Order
--   Process              src/main.rs: credentials, configuration and the loop that serves a topic.
--                        Child: Credentials
--   Metrics              src/metrics.rs: the labels and rows of counters. Children: Labels,
--                        Counters (inc_*), Counting, Render (render_prometheus)
--   Boot                 src/boot.rs, src/instance_registry.rs, src/configured_state.rs: the tenants.
--                        Children: Label, Resolve, Configure
--   Tool                 src/tool/mod.rs: the choice of tools. Children: Search (src/tool/search.rs,
--                        with Tokens, a reader of commands, and Injection), Send (src/tool/send.rs,
--                        with Strict), Reply (src/tool/reply.rs, with Recipients), AttachmentGet
--                        (src/tool/attachment_get.rs, with Sound), Dispatch
--                        (src/subprocess_dispatch.rs, with Names), Mailbox (src/tool/imap_op.rs,
--                        src/tool/move_to.rs, src/tool/archive.rs, src/tool/label.rs, with Moves), Reports
--                        (src/tool/bounces_summary.rs, src/tool/health.rs,
--                        src/tool/instances_list.rs)
--   Tests                concrete inputs, a codec of queue rows, and the theorems on them
--
-- Parameters. serde_json and the iteration order of HashMap are the record Storage, with the laws
-- that a row prints to a line that is not blank and parses back, and that the values of a map come
-- in some order. base64, file reads, mime_guess and mail-builder are the record MimeLib. The
-- circuit breaker of nexo_resilience is CircuitBreaker. mail-parser is MailParser, by what the code
-- reads of a message; IMAP, the parser of messages and the broker of the inbound worker are
-- Mailbox. SQL tables are maps from their primary keys. mail-parser, html2text and sha2 of the
-- inbound parser are MimeCrates, its file system is FileSystem. The loaders of the boot environment
-- are Loaders. Whether a query of a store succeeds is part of BounceReader and StoreReader, and of
-- Mailbox. The server of the mailbox tools is ImapServer, and the sorts of a scrape are
-- Sorting. SMTP answers, clock, jitter, uuids and cancellation are arguments.
--
-- Bounds. Text and bytes are lists of natural numbers. Times are Unix seconds past 1970. Counters keep
-- their saturation or wrap-around at 32 and 64 bits. All loops run over lists, so there is no fuel.
--
-- Not modelled: network, SQL and file system errors other than those of the parts above, the timers of
-- the select loops, the spawning of tasks, the parsing of MIME, YAML and JSON (libraries), and logging.
pub mod Base
pub mod OutboundQueue
pub mod Events
pub mod MimeBuild
pub mod Outbound
pub mod Dispatcher
pub mod Threading
pub mod LoopPrevent
pub mod Tests
pub mod CursorStore
pub mod AttachmentStore
pub mod BounceStore
pub mod Dsn
pub mod Inbound
pub mod Reload
pub mod ImapQuote
pub mod MimeText
pub mod Health
pub mod Config
pub mod InboundManager
pub mod OutboundDispatcher
pub mod Plugin
pub mod AutoDiscovery
pub mod EnvConfig
pub mod Process
pub mod MimeParse
pub mod Metrics
pub mod Boot
pub mod Tool
