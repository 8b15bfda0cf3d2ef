-- ===== src/Event.antt =====
-- The event codes of a CWMP session and their table (inc/cwmp.h, EVENT_CONST of event.c).
pub mod Params
use icwmp.Prelude.{
  ℕ, suc, ◌+◌, ◌%◌, ◌/◌, ◌≡◌, refl, ap, ◌∙◌, sym, Bool, true, false, Option, none, some, List, [],
  ◌∷◌, arith, ◌==◌, get_or,
}
use icwmp.Prelude.Text.{Text, codes}
use icwmp.Event.Params.{DmParameter}

pub data EventIdx : Type 0 where
  bootstrap boot periodic scheduled value_change kicked connection_request : EventIdx
  transfer_complete diagnostics_complete request_download autonomous_transfer_complete : EventIdx
  du_state_change_complete m_reboot m_schedule_inform m_download m_schedule_download : EventIdx
  m_upload m_change_du_state : EventIdx

-- The value of the enumerator.
unfoldable pub idx : EventIdx → ℕ
idx bootstrap = 0
idx boot = 1
idx periodic = 2
idx scheduled = 3
idx value_change = 4
idx kicked = 5
idx connection_request = 6
idx transfer_complete = 7
idx diagnostics_complete = 8
idx request_download = 9
idx autonomous_transfer_complete = 10
idx du_state_change_complete = 11
idx m_reboot = 12
idx m_schedule_inform = 13
idx m_download = 14
idx m_schedule_download = 15
idx m_upload = 16
idx m_change_du_state = 17

-- The enumerators in their order.
abbrev pub all_events : List EventIdx
all_events =
    bootstrap ∷ boot ∷ periodic ∷ scheduled ∷ value_change ∷ kicked ∷ connection_request
    ∷ transfer_complete ∷ diagnostics_complete ∷ request_download ∷ autonomous_transfer_complete
    ∷ du_state_change_complete ∷ m_reboot ∷ m_schedule_inform ∷ m_download ∷ m_schedule_download
    ∷ m_upload ∷ m_change_du_state ∷ []

of_idx-idx : (e : EventIdx) → get_or all_events (idx e) bootstrap ≡ e
unfolding idx
of_idx-idx bootstrap = refl
of_idx-idx e = refl

-- Two codes with one value are one code.
pub idx_injective : (a b : EventIdx) → idx a ≡ idx b → a ≡ b
idx_injective a b h =
    sym (of_idx-idx a) ∙ ap (λ (n : ℕ). get_or all_events n bootstrap) h ∙ of_idx-idx b

pub data EventType : Type 0 where
  single multiple : EventType

pub record EventConst : Type 0 where
  pub code : Text
  pub type : EventType
  pub retry : ℕ

abbrev pub retry_after_transmit_fail : ℕ
retry_after_transmit_fail = 1

abbrev pub retry_after_reboot : ℕ
retry_after_reboot = 2

-- EVENT_RETRY_AFTER_TRANSMIT_FAIL | EVENT_RETRY_AFTER_REBOOT
abbrev retry_both : ℕ
retry_both = 3

unfoldable pub event_const : EventIdx → EventConst
event_const bootstrap = record { code = codes "0 BOOTSTRAP"; type = single; retry = retry_both }
event_const boot = record {
  code = codes "1 BOOT";
  type = single;
  retry = retry_after_transmit_fail;
}
event_const periodic = record { code = codes "2 PERIODIC"; type = single; retry = retry_both }
event_const scheduled = record { code = codes "3 SCHEDULED"; type = single; retry = retry_both }
event_const value_change = record {
  code = codes "4 VALUE CHANGE";
  type = single;
  retry = retry_after_transmit_fail;
}
event_const kicked = record { code = codes "5 KICKED"; type = single; retry = retry_both }
event_const connection_request = record {
  code = codes "6 CONNECTION REQUEST";
  type = single;
  retry = 0;
}
event_const transfer_complete = record {
  code = codes "7 TRANSFER COMPLETE";
  type = single;
  retry = retry_both;
}
event_const diagnostics_complete = record {
  code = codes "8 DIAGNOSTICS COMPLETE";
  type = single;
  retry = retry_after_transmit_fail;
}
event_const request_download = record {
  code = codes "9 REQUEST DOWNLOAD";
  type = single;
  retry = retry_both;
}
event_const autonomous_transfer_complete = record {
  code = codes "10 AUTONOMOUS TRANSFER COMPLETE";
  type = single;
  retry = retry_both;
}
event_const du_state_change_complete = record {
  code = codes "11 DU STATE CHANGE COMPLETE";
  type = single;
  retry = retry_both;
}
event_const m_reboot = record { code = codes "M Reboot"; type = multiple; retry = retry_both }
event_const m_schedule_inform = record {
  code = codes "M ScheduleInform";
  type = multiple;
  retry = retry_both;
}
event_const m_download = record { code = codes "M Download"; type = multiple; retry = retry_both }
event_const m_schedule_download = record {
  code = codes "M ScheduleDownload";
  type = multiple;
  retry = retry_both;
}
event_const m_upload = record { code = codes "M Upload"; type = multiple; retry = retry_both }
event_const m_change_du_state = record {
  code = codes "M ChangeDUState";
  type = multiple;
  retry = retry_both;
}

-- EVENT_CONST[code].TYPE == EVENT_TYPE_SINGLE
unfoldable pub is_single : EventIdx → Bool
unfolding event_const
is_single e = elim (event_const e).type [ single ↦ true | multiple ↦ false ]

-- EVENT_CONST[code].RETRY & EVENT_RETRY_AFTER_REBOOT, as a test.
unfoldable pub survives_reboot : EventIdx → Bool
unfolding event_const
survives_reboot e = (event_const e).retry / 2 % 2 == 1

-- EVENT_CONST[code].RETRY == 0
unfoldable pub is_noretry : EventIdx → Bool
unfolding event_const
is_noretry e = (event_const e).retry == 0

-- EVENT_CONST[code].CODE[0] == '6'
unfoldable pub starts_with_six : EventIdx → Bool
unfolding event_const
starts_with_six e = get_or (event_const e).code 0 0 == b'6'

pub record EventContainer : Type 0 where
  pub code : EventIdx
  pub command_key : Text
  pub head_dm_parameter : List DmParameter
  pub id : ℕ
