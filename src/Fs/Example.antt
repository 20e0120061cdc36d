-- ===== src/Fs/Example.antt =====
-- A memory with an image of one file, which the examples on files share.
use neox.Base.{refl, ◌==◌, if◌then◌else◌, arith}
use neox.Base.Memory.{Bytes, AreBytes}
use neox.Strings.{IsString}
use neox.Fs.{Fs}
use neox.Fs.Mount.{IsImage}

-- The image of 95 bytes at 100 has the file "a" with the data 7, 8 and 9; the string "a" is at 300.
abbrev pub memory : Bytes
memory j =
    if j == 100
    then 0x53
    else if j == 101
    then 0x46
    else if j == 102
    then 0x58
    else if j == 103
    then 0x4E
    else if j == 104
    then 1
    else if j == 108
    then 1
    else if j == 112
    then 20
    else if j == 116
    then 92
    else if j == 120
    then 97
    else if j == 184
    then 92
    else if j == 188
    then 3
    else if j == 192
    then 7
    else if j == 193
    then 8
    else if j == 194
    then 9
    else if j == 300
    then 97
    else 0

abbrev pub mounted_fs : Fs
mounted_fs = record { image = 100; image_size = 95; superblock = 100 }

pub memory-AreBytes : AreBytes memory
memory-AreBytes j = ground arith

pub memory-IsImage : IsImage memory 100 95
memory-IsImage = record {
  present = omega arith;
  header = omega arith;
  marked = refl;
  current = refl;
  table = omega arith;
  inside = omega arith;
}

pub path-IsString : IsString memory 300 1
path-IsString = record { inside = λ k h. ground arith; end = refl }
