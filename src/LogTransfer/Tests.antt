-- ===== src/LogTransfer/Tests.antt =====
-- A reboot log of five bytes sent in chunks of two.
use c_py_nodus_ii.Prelude.{
  ℕ, ◌≡◌, refl, true, false, none, some, List, [], ◌∷◌, str_eq, if◌then◌else◌,
}
use c_py_nodus_ii.Prelude.Text.{strip_left, strip_right, has, after_last}
use c_py_nodus_ii.Prelude.Int.{pos}
use c_py_nodus_ii.LogTransfer.{
  Request, checksum_hex, checksum32, checksum_loop, hex_digits, fnv_seed, safe_filename,
}
use c_py_nodus_ii.LogTransfer.Session.{Transport, Device, process_log_transfer_message, is_member}
use c_py_nodus_ii.LogTransfer.Messages.{rounds, Delivered}
use c_py_nodus_ii.LogTransfer.Requests.{
  Answered, session_of, request_opens_only_logs, request_delivers_file,
}

abbrev log : List ℕ
log = 104 ∷ 101 ∷ 108 ∷ 108 ∷ 111 ∷ []

-- The text of a chunk stands for its bytes.
abbrev device : Device (List ℕ)
device = record {
  base_topic = "nodus";
  device_id = "n1";
  time = 0;
  settings_root = "/";
  files = λ path. if str_eq path "/_reboot.log" then some log else none;
  b2a_base64 = λ bytes. bytes;
}

abbrev request : Request
request = record { message_id = "m1"; filename = "_reboot.log"; chunk_size = pos 2 }

abbrev transport : Transport (List ℕ)
transport = record { connected = true; log_transfer_session = none; published = [] }

request_opens_only_logs_example :
    Answered device transport
      (process_log_transfer_message device "nodus/n1/logs/get" false (some request) [] transport)
request_opens_only_logs_example =
    request_opens_only_logs device "nodus/n1/logs/get" false (some request) [] transport

request_delivers_file_example :
    let t1 =
      (process_log_transfer_message device "nodus/n1/logs/get" false
        (some request)
        []
        transport).1 in
    (n : ℕ) × Delivered
      (λ bytes. bytes)
      transport
      (rounds device 6 t1)
      (session_of device request log)
      log
      log
      n
unfolding is_member safe_filename strip_left strip_right has after_last
request_delivers_file_example =
    request_delivers_file device (λ bytes. bytes) "nodus/n1/logs/get" request [] transport log
      (λ xs. refl) refl refl refl refl refl

-- The first test value of FNV-1a.
checksum-a : checksum_hex (checksum32 (97 ∷ []) fnv_seed) ≡ "e40c292c"
unfolding checksum_hex hex_digits checksum32 checksum_loop
checksum-a = refl
