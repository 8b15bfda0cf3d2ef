-- ===== src/Session.antt =====
-- The state that the threads of cwmp.c and event.c share (inc/cwmp.h).
-- A pointer to a session of the queue is its position there; a pointer to an event container is its
-- position in the list of its session. `callocs` lists the outcomes of the coming calls of calloc:
-- `false` is NULL, and past the end of the list memory suffices.
pub mod Backup
pub mod Queue
pub mod Causes
pub mod Retry
pub mod Order
pub mod Invariant
pub mod Preserve
pub mod Schedule
pub mod Merge
pub mod Steps
pub mod Counts
pub mod AtEnd
pub mod Lossless
pub mod Memory
pub mod Outcome
pub mod Noretry
pub mod Periodic
pub mod Saved
use icwmp.Prelude.{ℕ, Bool, true, false, Option, none, some, List, [], ◌∷◌, get_elem?}
use icwmp.Prelude.Text.{Text}
use icwmp.Event.{EventContainer}
use icwmp.Event.Params.{DmParameter}
use icwmp.Session.Backup.{BkpEvent}

-- `type` is an index of the table of methods; 0 is none.
pub record Rpc : Type 0 where
  pub type : ℕ
  pub extra_data : Option ℕ

abbrev pub rpc_acs_inform : ℕ
rpc_acs_inform = 1

abbrev pub rpc_acs_get_rpc_methods : ℕ
rpc_acs_get_rpc_methods = 2

abbrev pub rpc_acs_transfer_complete : ℕ
rpc_acs_transfer_complete = 3

abbrev pub rpc_acs_du_state_change_complete : ℕ
rpc_acs_du_state_change_complete = 4

pub data CwmpRet : Type 0 where
  cwmp_ok cwmp_gen_err cwmp_mem_err cwmp_mutex_err cwmp_retry_session : CwmpRet

-- The flags of `end_session`, one for each bit.
pub record EndSession : Type 0 where
  pub reboot : Bool
  pub external_action : Bool
  pub reload : Bool
  pub factory_reset : Bool
  pub ipping_diagnostic : Bool
  pub download_diagnostic : Bool
  pub upload_diagnostic : Bool

abbrev pub no_end_session : EndSession
no_end_session = record {
  reboot = false;
  external_action = false;
  reload = false;
  factory_reset = false;
  ipping_diagnostic = false;
  download_diagnostic = false;
  upload_diagnostic = false;
}

pub record Session : Type 0 where
  pub head_event_container : List EventContainer
  pub head_rpc_acs : List Rpc
  pub head_rpc_cpe : List Rpc
  pub hold_request : Bool
  pub digest_auth : Bool
  pub end_session : EndSession
  pub error : CwmpRet

-- What calloc and INIT_LIST_HEAD give.
abbrev pub empty_session : Session
empty_session = record {
  head_event_container = [];
  head_rpc_acs = [];
  head_rpc_cpe = [];
  hold_request = false;
  digest_auth = false;
  end_session = no_end_session;
  error = cwmp_ok;
}

-- A link of `head_session_queue`. `freed` is a link whose session was given to free: to read it is
-- undefined behaviour in C, and the operations below then leave the state alone.
pub data Slot : Type 0 where
  live : Session → Slot
  freed : Slot

pub data SessionState : Type 0 where
  session_waiting session_running session_failure session_success : SessionState

pub record SessionStatus : Type 0 where
  pub last_start_time : ℕ
  pub last_end_time : ℕ
  pub last_status : SessionState
  pub next_retry : ℕ
  pub success_session : ℕ
  pub failure_session : ℕ

pub record Cwmp : Type 0 where
  pub head_session_queue : List Slot
  pub session_send : Option Session
  pub head_event_container : Option ℕ
  pub static_id : ℕ
  pub callocs : List Bool
  pub retry_count_session : ℕ
  pub cwmp_cr_event : Bool
  pub env_boot : ℕ
  pub env_periodic : ℕ
  pub list_value_change : List DmParameter
  pub session_status : SessionStatus
  pub bkp_tree : List BkpEvent
  pub bkp_file : List BkpEvent

-- The outcome of one call of calloc, and those of the later calls.
unfoldable pub calloc : List Bool → Bool × List Bool
calloc [] = (true, [])
calloc (b ∷ bs) = (b, bs)

-- `list_entry(cwmp->head_event_container, struct session, head_event_container)`
unfoldable pub head_session : Cwmp → Option Session
head_session c = elim c.head_event_container [
  | none ↦ none
  | some p ↦ elim (get_elem? c.head_session_queue p) [ some (live s) ↦ some s | _ ↦ none ]
]
