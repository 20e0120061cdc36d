-- ===== src/Fs/Tests.antt =====
-- The theorems on the file system at a small image.
use neox.Base.{◌≡◌, ◌↔◌, refl, arith}
use neox.Base.Result.{done}
use neox.Strings.{strcmp}
use neox.Fs.{Fs, check_image, fs_mount, find_from, fs_find}
use neox.Fs.Mount.{IsImage, fs_mount-IsImage}
use neox.Fs.Example.{memory, mounted_fs, memory-AreBytes}

abbrev no_fs : Fs
no_fs = record { image = 0; image_size = 0; superblock = 0 }

mounts : (fs_mount memory no_fs 100 95).1 ≡ 0
unfolding fs_mount check_image
mounts = refl

finds : fs_find 10 memory mounted_fs 300 ≡ done 120
unfolding fs_find find_from strcmp
finds = refl

fs_mount-IsImage_example : ((fs_mount memory no_fs 100 95).1 ≡ 0) ↔ IsImage memory 100 95
fs_mount-IsImage_example = fs_mount-IsImage memory no_fs 100 95 memory-AreBytes (omega arith)
