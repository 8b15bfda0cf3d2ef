-- ===== src/Rpc/Transfer.antt =====
-- cwmp_handle_rpc_cpe_download and cwmp_handle_rpc_cpe_upload of xml.c.
use icwmp.Prelude.{
  ℕ, suc, Bool, false, not, ◌&&◌, ◌||◌, Option, none, some, List, [], ◌∷◌, ◌++◌, if◌then◌else◌, leb,
}
use icwmp.Prelude.Decimal.{ℤ, pos, gt, plus, is_zero, atoi}
use icwmp.Prelude.Text.{Text, codes, str_eq, strstr, is_prefix}
use icwmp.Rpc.{
  State, bkp_session_save, Fault, request_denied, invalid_arguments, resources_exceeded,
  unsupported_protocol, Answer, response, fault_message, failed, texts, max_queue,
}
use icwmp.Store.Loading.{download_time, upload_time}
use icwmp.Store.Node.{Node}
use icwmp.Store.Requests.{Download, Upload}
use icwmp.Store.Writers.{bkp_session_insert_download, bkp_session_insert_upload}

-- `file_type` is the local variable: the texts of the element with spaces between.
pub record DownloadArgs : Type 0 where
  pub download : Download
  pub file_type : Option Text
  pub download_delay : ℤ

abbrev joined : Option Text → Text → Option Text
joined none v = some v
joined (some t) v = some (t ++ b' ' ∷ v)

abbrev first_of : Option Text → Text → Option Text
first_of none v = some v
first_of (some t) v = some t

abbrev download_arg : DownloadArgs → Text → Text → DownloadArgs
download_arg a m v =
    if str_eq m (codes "CommandKey")
    then record a { download = record (a.download) { command_key = some v } }
    else if str_eq m (codes "FileType")
    then record a {
      download = record (a.download) { file_type = first_of a.download.file_type v };
      file_type = joined a.file_type v;
    }
    else if str_eq m (codes "URL")
    then record a { download = record (a.download) { url = some v } }
    else if str_eq m (codes "Username")
    then record a { download = record (a.download) { username = some v } }
    else if str_eq m (codes "Password")
    then record a { download = record (a.download) { password = some v } }
    else if str_eq m (codes "FileSize")
    then record a { download = record (a.download) { file_size = atoi v } }
    else if str_eq m (codes "DelaySeconds")
    then record a { download_delay = atoi v }
    else a

abbrev pub read_args {ℓ} : {A : Type ℓ} → (A → Text → Text → A) → A → List (Text × Text) → A
read_args f a [] = a
read_args f a ((m, v) ∷ ts) = read_args f (f a m v) ts

unfoldable pub read_download_args : Node → DownloadArgs
unfolding texts
read_download_args n =
    read_args download_arg
      (record {
        download = record {
          scheduled_time = pos 0;
          file_size = pos 0;
          command_key = none;
          file_type = none;
          url = none;
          username = none;
          password = none;
        };
        file_type = none;
        download_delay = pos 0;
      })
      (texts (codes "cwmp:Download") n)

-- The tests on the url from that on NULL on; `protocols` are those that are supported.
unfoldable pub check_url : List Text → Option Text → Option Fault
check_url protocols none = some request_denied
check_url protocols (some []) = some request_denied
check_url protocols (some (a ∷ url)) =
    if strstr (a ∷ url) (codes "@")
    then some invalid_arguments
    else if supported protocols
    then none
    else some unsupported_protocol
  where
    supported : List Text → Bool
    supported [] = false
    supported (p ∷ ps) = is_prefix p (a ∷ url) || supported ps

-- `none` is FAULT_CPE_NO_FAULT.
unfoldable pub check_download : ℕ → Text → Download → Option Fault
unfolding check_url
check_download count file_type d =
    if not (
      str_eq file_type (codes "1 Firmware Upgrade Image")
      || (str_eq file_type (codes "2 Web Content")
          || str_eq file_type (codes "3 Vendor Configuration File")))
    then some invalid_arguments
    else if leb max_queue count
    then some resources_exceeded
    else check_url (codes "http://" ∷ codes "https://" ∷ codes "ftp://" ∷ []) d.url

-- list_for_each up to the first request that is not earlier, and list_add before it.
unfoldable pub add_before {ℓ} : {A : Type ℓ} → (A → ℤ) → A → List A → List A
add_before time a [] = a ∷ []
add_before time a (b ∷ bs) =
    let rest = add_before time a bs in if gt (time a) (time b) then b ∷ rest else a ∷ b ∷ bs

-- `now` is the clock. A request without delay keeps the time 0.
abbrev pub time_of : ℤ → ℤ → ℤ
time_of now delay = if is_zero delay then pos 0 else plus now delay

unfoldable pub queue_download : State → ℤ → ℤ → Download → State
unfolding add_before bkp_session_insert_download bkp_session_save
queue_download s now delay d =
    let d' = record d { scheduled_time = time_of now delay } in
    bkp_session_save (record s {
      queues = record (s.queues) {
        list_download = add_before download_time d' s.queues.list_download;
        count_download_queue =
            if is_zero delay
            then s.queues.count_download_queue
            else suc s.queues.count_download_queue;
      };
      bkp_tree = bkp_session_insert_download s.bkp_tree d';
    })

-- The children of the element `cwmp:Download`, or none where there is no such element. The result is none where
-- strcmp reads a NULL pointer: no FileType was given.
unfoldable pub cwmp_handle_rpc_cpe_download : State → ℤ → Option Node → Option (Answer × State)
unfolding read_download_args check_download queue_download
cwmp_handle_rpc_cpe_download s now none = some (failed, s)
cwmp_handle_rpc_cpe_download s now (some n) =
    let a = read_download_args n in
    elim a.file_type [
      | none ↦ none
      | some t ↦ elim (check_download s.queues.count_download_queue t a.download) [
        | some f ↦ some (fault_message f, s)
        | none ↦
            some (
              response (codes "DownloadResponse"),
              queue_download s now a.download_delay a.download,
            )
      ]
    ]

pub record UploadArgs : Type 0 where
  pub upload : Upload
  pub file_type : Option Text
  pub upload_delay : ℤ

abbrev starts_with_digit : Text → Bool
starts_with_digit [] = false
starts_with_digit (a ∷ s) = leb b'0' a && leb a b'9'

-- The instance of a vendor log file: a later text of FileType that begins with a digit.
abbrev instance_of : Option Text → Option Text → Text → Option Text
instance_of none old v = old
instance_of (some t) old v = if starts_with_digit v then some v else old

abbrev upload_arg : UploadArgs → Text → Text → UploadArgs
upload_arg a m v =
    if str_eq m (codes "CommandKey")
    then record a { upload = record (a.upload) { command_key = some v } }
    else if str_eq m (codes "FileType")
    then record a {
      upload = record (a.upload) {
        file_type = first_of a.upload.file_type v;
        f_instance = instance_of a.upload.file_type a.upload.f_instance v;
      };
      file_type = joined a.file_type v;
    }
    else if str_eq m (codes "URL")
    then record a { upload = record (a.upload) { url = some v } }
    else if str_eq m (codes "Username")
    then record a { upload = record (a.upload) { username = some v } }
    else if str_eq m (codes "Password")
    then record a { upload = record (a.upload) { password = some v } }
    else if str_eq m (codes "DelaySeconds")
    then record a { upload_delay = atoi v }
    else a

unfoldable pub read_upload_args : Node → UploadArgs
unfolding texts
read_upload_args n =
    read_args upload_arg
      (record {
        upload = record {
          scheduled_time = pos 0;
          command_key = none;
          file_type = none;
          url = none;
          username = none;
          password = none;
          f_instance = some [];
        };
        file_type = none;
        upload_delay = pos 0;
      })
      (texts (codes "cwmp:Upload") n)

unfoldable pub check_upload : ℕ → Text → Upload → Option Fault
unfolding check_url
check_upload count file_type u =
    if not (
      is_prefix (codes "3 Vendor Configuration File") file_type
      || is_prefix (codes "4 Vendor Log File") file_type)
    then some request_denied
    else if leb max_queue count
    then some resources_exceeded
    else check_url (codes "http://" ∷ codes "ftp://" ∷ []) u.url

unfoldable pub queue_upload : State → ℤ → ℤ → Upload → State
unfolding add_before bkp_session_insert_upload bkp_session_save
queue_upload s now delay u =
    let u' = record u { scheduled_time = time_of now delay } in
    bkp_session_save (record s {
      queues = record (s.queues) {
        list_upload = add_before upload_time u' s.queues.list_upload;
        count_download_queue =
            if is_zero delay
            then s.queues.count_download_queue
            else suc s.queues.count_download_queue;
      };
      bkp_tree = bkp_session_insert_upload s.bkp_tree u';
    })

unfoldable pub cwmp_handle_rpc_cpe_upload : State → ℤ → Option Node → Option (Answer × State)
unfolding read_upload_args check_upload queue_upload
cwmp_handle_rpc_cpe_upload s now none = some (failed, s)
cwmp_handle_rpc_cpe_upload s now (some n) =
    let a = read_upload_args n in
    elim a.file_type [
      | none ↦ none
      | some t ↦ elim (check_upload s.queues.count_download_queue t a.upload) [
        | some f ↦ some (fault_message f, s)
        | none ↦
            some (response (codes "UploadResponse"), queue_upload s now a.upload_delay a.upload)
      ]
    ]
