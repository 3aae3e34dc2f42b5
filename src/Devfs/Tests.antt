-- ===== src/Devfs/Tests.antt =====
-- The devices of src/devfs.rs in a file system, and a line from the keyboard.
use sysrust.Common.{ℕ, ◌+◌, ◌≡◌, [], ◌∷◌, ◌==◌, if◌then◌else◌, Table, some, refl}
use sysrust.Vfs.{Vfs, add_child, finddir, default_finddir, default_readdir}
use sysrust.Vfs.{make_dir}
use sysrust.Vfs.Starting.{readdir}
use sysrust.Initrd.{init_vfs}
use sysrust.Vfs.Paths.{resolve_path, resolve_loop}
use sysrust.Vfs.Tests.{bump, no_disk, one_dir}
use sysrust.Devfs.{init, make_device, console_read, devfs_readdir}
use sysrust.Devfs.Console.{IsLine, console_read-IsLine}

abbrev with_devices : Vfs
with_devices = (init bump 1 one_dir 2).0

-- "/dev/zero"
dev_zero :
    resolve_path no_disk 20 (47 ∷ 100 ∷ 101 ∷ 118 ∷ 47 ∷ 122 ∷ 101 ∷ 114 ∷ 111 ∷ []) with_devices
    ≡ some 5
unfolding init make_device add_child resolve_path resolve_loop finddir default_finddir
dev_zero = refl

third_device : devfs_readdir 3 2 with_devices ≡ 6
unfolding init make_device add_child devfs_readdir
third_device = refl

root_entry : default_readdir 1 1 with_devices ≡ 3
unfolding init make_device add_child default_readdir
root_entry = refl

-- "ab" and a newline.
abbrev ab_typed : Table ℕ
ab_typed i = if i == 2 then 10 else 97 + i

ab_line : console_read 9 0 ab_typed ≡ 97 ∷ 98 ∷ 10 ∷ []
unfolding console_read
ab_line = refl

console_read-IsLine_example : IsLine 9 0 ab_typed (console_read 9 0 ab_typed)
console_read-IsLine_example = console_read-IsLine 9 0 ab_typed

-- The file system after init, with nothing in it before.
abbrev started : Vfs
started = (sysrust.Vfs.Starting.init bump [] 0 80 one_dir 9).0

root_devices : readdir (λ i. 0) 10 0 started ≡ 11
unfolding sysrust.Vfs.Starting.init make_dir init_vfs init make_device add_child readdir
    devfs_readdir default_readdir
root_devices = refl
