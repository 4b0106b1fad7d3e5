-- ===== src/Let/Tests/Logs.antt =====
-- The theorem about the logs, applied to a small file.
use go_gvisor_containerd_let.Base.{◌≡◌, refl, pos, some, [], ◌∷◌, arith, contains}
use Prim.Native.String.{◌++◌ as append}
use go_gvisor_containerd_let.Let.Types.{done}
use go_gvisor_containerd_let.Let.Logs.{Bytes, LogFiles, container_log_path}
use go_gvisor_containerd_let.Let.Logs.Paging.{follow, all_lines, follow-all_lines}

-- "a\r\nb\n" and an unfinished line "c".
abbrev sample_log : Bytes
sample_log = 97 ∷ 13 ∷ 10 ∷ 98 ∷ 10 ∷ 99 ∷ []

abbrev sample_files : LogFiles
sample_files = record {
  state_base_dir = "/var/lib/sandboxd";
  join = λ a b. append a (append "/" b);
  open_file = λ path. done sample_log;
}

follow-all_lines_example : follow sample_files "s1" "web" (pos 1) 7 "" ≡ some (all_lines sample_log)
unfolding container_log_path contains
follow-all_lines_example =
    follow-all_lines sample_files "s1" "web" "/var/lib/sandboxd/s1/logs/web.log" (pos 1) sample_log
      refl refl (omega arith) 7 (omega arith)
