-- ===== src/Rpc/Messages.antt =====
-- What changes the queues of transfers: the messages of the ACS with the clock, rounds of the threads that run
-- the transfers, and the functions cwmp_*_remove_all.
use icwmp.Prelude.{Option, none, some, List, [], ◌∷◌}
use icwmp.Prelude.Decimal.{ℤ}
use icwmp.Rpc.{State, Answer}
use icwmp.Rpc.Inform.{cwmp_handle_rpc_cpe_schedule_inform, cwmp_schedule_inform_remove_all}
use icwmp.Prelude.Text.{Text}
use icwmp.Rpc.Launch.{
  Script, Round, waits, goes_on, exits, left_locked, reads_null, thread_cwmp_rpc_cpe_download,
  thread_cwmp_rpc_cpe_upload,
}
use icwmp.Rpc.Remove.{
  cwmp_handle_rpc_cpe_cancel_transfer, cwmp_scheduled_download_remove_all,
  cwmp_scheduled_upload_remove_all, schedule_download_remove_all,
}
use icwmp.Rpc.Transfer.{cwmp_handle_rpc_cpe_download, cwmp_handle_rpc_cpe_upload}
use icwmp.Store.Node.{Node}

pub data Message : Type 0 where
  download_message upload_message : ℤ → Option Node → Message
  schedule_inform_message : ℤ → Node → Message
  cancel_transfer_message : Node → Message
  download_round : Option Text → ℤ → Script → Message
  upload_round : ℤ → Script → Message
  remove_downloads remove_uploads remove_schedule_downloads remove_schedule_informs : Message

-- The state after the handler; none where it reads a NULL pointer.
abbrev pub state_of : Option (Answer × State) → Option State
state_of none = none
state_of (some (a, s)) = some s

-- The state after a round; none where the process ends or mutex_upload stays locked.
abbrev pub state_after : Round → Option State
state_after (waits s) = some s
state_after (goes_on s) = some s
state_after (exits s) = none
state_after (left_locked s) = none
state_after reads_null = none

unfoldable pub handle : State → Message → Option State
unfolding cwmp_handle_rpc_cpe_download cwmp_handle_rpc_cpe_upload
    cwmp_handle_rpc_cpe_schedule_inform cwmp_handle_rpc_cpe_cancel_transfer
    cwmp_scheduled_download_remove_all cwmp_scheduled_upload_remove_all schedule_download_remove_all
    cwmp_schedule_inform_remove_all thread_cwmp_rpc_cpe_download thread_cwmp_rpc_cpe_upload
handle s (download_message now n) = state_of (cwmp_handle_rpc_cpe_download s now n)
handle s (upload_message now n) = state_of (cwmp_handle_rpc_cpe_upload s now n)
handle s (schedule_inform_message now body) =
    state_of (cwmp_handle_rpc_cpe_schedule_inform s now body)
handle s (cancel_transfer_message body) = state_of (cwmp_handle_rpc_cpe_cancel_transfer s body)
handle s (download_round v now e) = state_after (thread_cwmp_rpc_cpe_download v now e s)
handle s (upload_round now e) = state_after (thread_cwmp_rpc_cpe_upload now e s)
handle s remove_downloads = some (cwmp_scheduled_download_remove_all s)
handle s remove_uploads = some (cwmp_scheduled_upload_remove_all s)
handle s remove_schedule_downloads = some (schedule_download_remove_all s)
handle s remove_schedule_informs = some (cwmp_schedule_inform_remove_all s)

unfoldable pub handle_all : State → List Message → Option State
unfolding handle
handle_all s [] = some s
handle_all s (m ∷ ms) = elim (handle s m) [ none ↦ none | some s' ↦ handle_all s' ms ]
