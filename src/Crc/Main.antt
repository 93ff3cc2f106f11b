-- ===== src/Crc/Main.antt =====
-- `main` of crc.c, on the list of arguments with the program's name in front.
use ti.Base.{List, [], ◌∷◌, Bytes, codes, if◌then◌else◌, str_eq}
use ti.Base.Process.{Process, exit, ◌>>◌}
use ti.Base.Disk.{Disk}
use ti.Crc.Calculate
use ti.Crc.Calculate.{calculate}
use ti.Crc.Validate
use ti.Crc.Validate.{validate}
use ti.Crc.{err_arg}

-- The process ends with a status in every case but undefined behaviour.
unfoldable pub main :
    Calculate.Faults → Validate.Faults → List Bytes → Process (Disk Bytes) (Unit {0})
unfolding calculate validate
main f g (prog ∷ mode ∷ filename ∷ []) =
    if str_eq mode (codes "calculate")
    then (calculate f filename >> exit 0)
    else if str_eq mode (codes "validate")
    then (validate g filename >> exit 0)
    else exit err_arg
main f g _ = exit err_arg
