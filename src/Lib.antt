-- ===== src/Lib.antt =====
-- icwmp is the client of TR-069 (CWMP) on a router: it keeps a queue of sessions with the server (ACS),
-- fills them with events, sends them and tries again what failed. This library models the parts that
-- keep state or decide, and proves what they promise.
--
-- Parts, and the files of the repository that they model:
--   * Event (inc/cwmp.h, event.c): the table EVENT_CONST; Event.Params the lists of parameters of an
--     event (add_dm_parameter_tolist).
--   * Session (inc/cwmp.h, cwmp.c, event.c, backupSession.c, http.c): the record `Cwmp` is the state that
--     the threads share. A pointer to a session is its position in the queue, a pointer to an event its
--     position in the list of the session; `freed` is a link to a session that was given to free. The
--     outcomes of calloc are a list in the state, so running out of memory is a run like any other.
--     Session.Queue adds sessions and events, Session.Causes holds the root causes that do so,
--     Session.AtEnd is about the actions at the end of a session, Session.Counts about the tries;
--     Session.Retry moves sessions between the queue and `session_send`, Session.Schedule is a round of
--     cwmp_schedule_session around the exchange of RPCs, Session.Periodic the thread of
--     periodic events, Session.Backup the queue events of the backup tree. Each operation that runs under mutex_session_queue is one step of Session.Steps, and a run of
--     the threads is a sequence of such steps.
--   * Md5 (md5.c): words are numbers modulo 2 ^ 32 with the wrap-around written out; the loop over the
--     blocks has the length of the data as fuel, which is enough since a round takes 64 bytes.
--   * Digest (digestauth.c): the check of connection requests. A pointer into the header is the text from
--     there on; the loop of lookup_sub_value has the length of the header as fuel; a round moves on by a
--     character at least. `none` is a read out of bounds, and in the loop that the fuel is used up. The clock, LONG_MAX and
--     errno are fields of the request. strtoul is written out at base 16 (Digest.Hex).
--   * Dm (dm/dmcwmp.h, dm/dmcwmp.c, dm/dmentry.c): the walk over the data model. The macros IF_MATCH,
--     DMOBJECT, DMPARAM and SUBENTRY are the constructors of `Code`, of which the entry methods of dm/dmtree
--     are written; the tree itself, the state of the device and the calls into libuci are parameters.
--     Dm.Value, Dm.Name, Dm.Attributes and Dm.Objects are the methods of the RPCs, Dm.Notify the lists of
--     notifications in the configuration, Dm.Entry the commands.
--     current_obj is text of any length, where C has 512 bytes.
--   * Store (backupSession.c, inc/xml.h): the backup file. Store.Node is the XML tree, a node having the
--     pointers to its first child and its next sibling that the code follows, with the search for a
--     node; Store.Writers and Store.DuWriters insert and delete requests, Store.Events the events;
--     Store.Readers and Store.States read the requests back, Store.Loading and Store.LoadEvent put them
--     into the queues, Store.Reload loads the whole tree, Store.Disk keeps the file. Session.Backup is the
--     list of events that the tree stands for (Store.Refine). Numbers are written and read in decimal
--     (Prelude.Decimal: sprintf, atoi), as integers of any size.
--   * Rpc (xml.c): the messages of the ACS that queue transfers and informs, and what removes them. A
--     message is the tree of its element. Rpc.Transfer handles Download and Upload, Rpc.Inform
--     ScheduleInform, Rpc.Remove CancelTransfer and the functions cwmp_*_remove_all; Rpc.Faults is the
--     table of the faults. DelaySeconds is any integer, an unsigned int where C has one.
--     Rpc.Launch is a round of the threads of downloads and of uploads as one step, with the answers of
--     the scripts as arguments; Rpc.Messages is a run of messages and rounds in any order. They and the
--     loading of the file change the same queues (Store.Loading).
--   * Tests: runs on concrete inputs, and each theorem applied at one.
--
-- Sessions call Event for the order and the kind of events, and Session.Backup to save them. Digest calls
-- Md5. Dm keeps its own lists of parameters and shares their type with Event. Store adds what it loads to the
-- state of Session.
--
-- Not modelled: of xml.c the other messages, the other threads, and what is sent; cwmp_schedule_rpc
-- of cwmp.c, the exchange over HTTP; the configuration (config.c), the sockets and callbacks of http.c,
-- ubus.c, netlink.c and xmpp_cr.c, the scripts of external.c and diagnostic.c, and the tables of dm/dmtree,
-- which call libraries and keep no state of their own; of
-- event.c the bootstrap and the value changes; of dm/dmcwmp.c the numbering of instances, which
-- is the tables' and libuci's. Texts hold no zero byte, and strdup does not fail. The
-- XML library stands outside the repository: Store builds and walks the tree as its documentation says, and takes
-- the reading and writing of the file as arguments.
pub mod Prelude
pub mod Event
pub mod Session
pub mod Store
pub mod Rpc
pub mod Md5
pub mod Digest
pub mod Dm
pub mod Tests
