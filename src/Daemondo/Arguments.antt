-- ===== src/Daemondo/Arguments.antt =====
-- The arguments of a command on the command line of src/programs/daemondo/main.c:
-- `CollectCmdArgs`, and the style of pid that `main` takes where none is given.
use mac_ports_fork.CString.{Bytes}
use mac_ports_fork.Prelude.{ℕ, suc, ◌+◌, Bool, true, false, List, [], ◌∷◌, if◌then◌else◌}
use mac_ports_fork.Filemap.FilePath.{same_bytes}
use mac_ports_fork.Daemondo.PidFile.{PidStyle, unknown, none_known, exec, file_auto, file_clean}

abbrev pub marker : Bytes
marker = b';' ∷ []

-- The arguments up to the marker ";", with `moreArgs` and whether the marker was met.
unfoldable pub collect : List Bytes → List Bytes × ℕ × Bool
collect [] = ([], 0, false)
collect (a ∷ r) =
    let (args, n, met) = collect r in
    if same_bytes marker a then ([], 0, true) else (a ∷ args, suc n, met)

-- `calloc` never fails here. The arguments, the given one first, and how many are used up.
unfoldable pub collect_cmd_args : Bytes → List Bytes → List Bytes × ℕ
unfolding collect
collect_cmd_args arg1 argv =
    let (args, n, met) = collect argv in (arg1 ∷ args, if met then n + 1 else n)

unfoldable pub default_pid_style : PidStyle → List Bytes → List Bytes → List Bytes → PidStyle
default_pid_style unknown (a ∷ r) [] [] = exec
default_pid_style unknown [] stop restart = none_known
default_pid_style unknown (a ∷ r) (b ∷ t) restart = none_known
default_pid_style unknown (a ∷ r) [] (c ∷ u) = none_known
default_pid_style none_known start stop restart = none_known
default_pid_style exec start stop restart = exec
default_pid_style file_auto start stop restart = file_auto
default_pid_style file_clean start stop restart = file_clean
