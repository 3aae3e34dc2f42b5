-- ===== src/Initrd/Tests.antt =====
-- An image of src/initrd.rs with one file, and the theorem at it.
use sysrust.Common.{
  ℕ, ◌≡◌, List, [], ◌∷◌, Option, some, none, map, ◌==◌, if◌then◌else◌, Table, arith, refl,
}
use sysrust.Initrd.{init, find, initrd_vfs_read, InitrdFile}
use sysrust.Initrd.Image.{IsImage, first, contents, init-contents}
use sysrust.Ramfs.{bytes_from}

-- The file "a" with the bytes 7 and 8, at address 0.
abbrev image : Table ℕ
image p =
    if p == 0
    then 1
    else if p == 4
    then 97
    else if p == 68
    then 2
    else if p == 72
    then 7
    else if p == 73
    then 8
    else 0

abbrev file_a : List (List ℕ × List ℕ)
file_a = (97 ∷ [], 7 ∷ 8 ∷ []) ∷ []

image-IsImage : IsImage image 4 file_a
unfolding bytes_from
image-IsImage = ((refl, (omega arith, refl)), (omega arith, (refl, (refl, tt))))

init-contents_example : map (contents image) (init 8 1 0 image) ≡ first 64 file_a
init-contents_example = init-contents file_a 8 1 0 image refl (omega arith) refl image-IsImage

bytes_of : Option InitrdFile → List ℕ
unfolding initrd_vfs_read
bytes_of none = []
bytes_of (some f) = initrd_vfs_read 1 9 f image

reads_rest : bytes_of (find (97 ∷ []) (init 8 1 0 image)) ≡ 8 ∷ []
unfolding bytes_of init find initrd_vfs_read
reads_rest = refl
