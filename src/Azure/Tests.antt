-- ===== src/Azure/Tests.antt =====
-- Witnesses and tests of the Azure client, over the store in memory.
use winegrid_internship.Base.{
  ◌≡◌, refl, arith, true, some, none, [], ◌∷◌, ◌++◌, Bytes, codes, replicate, take, str_eq,
  ne_of_str_eq,
}
use winegrid_internship.Nvs.{pending_fw, failed_fw, load_nvs_str, save_nvs_str, erase_nvs_key}
use winegrid_internship.Nvs.Memory.{Map, put, map_nvs, empty_map}
use winegrid_internship.Azure.{Hub, report_fw_state}
use winegrid_internship.Azure.Ota.{
  received, closed, Answers, ends, ota_task, task_version, trigger_ota, start_task, download,
  install, after_newline,
}
use winegrid_internship.Azure.Ota.Task.{complete, chunk, ota_task_installs}
use winegrid_internship.Azure.Examples.{hub_with}
use winegrid_internship.Azure.Boot.{reconcile_pending_ota}
use winegrid_internship.Azure.Boot.Rollback.{rollback_refused, rollback_retries_long}

abbrev two_chunks : Answers
two_chunks = record {
  http_open = true;
  ota_begin = true;
  reads = received (1 ∷ 2 ∷ []) true ∷ received (3 ∷ []) true ∷ closed true ∷ [];
  ota_end = true;
  set_boot_partition = true;
}

abbrev ota_arg_1_1 : Bytes
ota_arg_1_1 = codes "http://srv/fw.bin\n1.1"

ota_task_installs_example :
    (h' : Hub Map) × (ota_task map_nvs ota_arg_1_1 two_chunks (hub_with empty_map) ≡ ends h')
    × (h'.restarting ≡ true)
    × (h'.boot_image ≡ some (1 ∷ 2 ∷ 3 ∷ []))
    × (h'.store ≡ put empty_map pending_fw (some (task_version ota_arg_1_1)))
unfolding save_nvs_str
ota_task_installs_example =
    ota_task_installs map_nvs ota_arg_1_1 two_chunks (hub_with empty_map) (1 ∷ 2 ∷ 3 ∷ [])
      (put empty_map pending_fw (some (task_version ota_arg_1_1)))
      (record { http_open = refl; ota_begin = refl; ota_end = refl; set_boot_partition = refl })
      (chunk (1 ∷ 2 ∷ []) (chunk (3 ∷ []) complete)) refl

abbrev pending_map : Bytes → Map
pending_map v = put empty_map pending_fw (some v)

-- The flash after a boot that found `v` pending and runs another version.
abbrev rolled_back : Bytes → Map
rolled_back v = put (put (pending_map v) failed_fw (some v)) pending_fw none

rolls_back :
    reconcile_pending_ota map_nvs (codes "1.0") (pending_map (codes "1.1"))
    ≡ some (rolled_back (codes "1.1"))
unfolding reconcile_pending_ota load_nvs_str save_nvs_str erase_nvs_key str_eq
rolls_back = refl

rollback_refused_example :
    trigger_ota map_nvs
      (codes "http://srv/fw.bin")
      (codes "1.1")
      (hub_with (rolled_back (codes "1.1")))
    ≡ report_fw_state (codes "FAILED") (hub_with (rolled_back (codes "1.1")))
unfolding str_eq
rollback_refused_example =
    rollback_refused map_nvs (codes "1.0") (codes "1.1") (codes "http://srv/fw.bin")
      (pending_map (codes "1.1")) (rolled_back (codes "1.1")) (hub_with (rolled_back (codes "1.1")))
      (omega arith) refl (ne_of_str_eq _ _ refl) refl rolls_back refl

-- Thirty-two bytes, the last one cut off by the task.
abbrev long_version : Bytes
long_version = replicate 32 b'7'

abbrev long_arg : Bytes
long_arg = codes "http://srv/fw.bin" ++ b'\n' ∷ long_version

-- What the task for it leaves.
abbrev long_updated : Hub Map
long_updated =
    record (report_fw_state (codes "UPDATED") (
      report_fw_state (codes "VERIFIED")
        (report_fw_state (codes "DOWNLOADING") (hub_with (pending_map (task_version long_arg)))))) {
          boot_image = some (1 ∷ 2 ∷ 3 ∷ []);
          restarting = true;
        }

updates_long : ota_task map_nvs long_arg two_chunks (hub_with empty_map) ≡ ends long_updated
unfolding ota_task download install save_nvs_str
updates_long = refl

rolls_back_long :
    reconcile_pending_ota map_nvs (codes "1.0") long_updated.store
    ≡ some (rolled_back (take 31 long_version))
unfolding reconcile_pending_ota load_nvs_str save_nvs_str erase_nvs_key str_eq report_fw_state
    task_version after_newline
rolls_back_long = refl

rollback_retries_long_example :
    trigger_ota map_nvs
      (codes "http://srv/fw.bin")
      long_version
      (hub_with (rolled_back (take 31 long_version)))
    ≡ start_task map_nvs
        (codes "http://srv/fw.bin")
        long_version
        (hub_with (rolled_back (take 31 long_version)))
unfolding str_eq report_fw_state
rollback_retries_long_example =
    rollback_retries_long map_nvs (codes "1.0") long_version (codes "http://srv/fw.bin") two_chunks
      (hub_with empty_map) long_updated (hub_with (rolled_back (take 31 long_version)))
      (rolled_back (take 31 long_version)) (omega arith) (omega arith) updates_long refl refl
      (ne_of_str_eq _ _ refl) refl rolls_back_long refl
