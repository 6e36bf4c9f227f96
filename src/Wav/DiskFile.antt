-- ===== src/Wav/DiskFile.antt =====
-- A binary file as `std::fopen(path, "wb+")` gives it to src/control_center_v1.cpp: its bytes, the
-- place of the next write, and how many bytes the disk has room for. A write beyond that is cut
-- short, as `std::fwrite` may do.
use mac_kinect_native.Base.{ℕ, ◌+◌, ◌-◌, ◌≤◌, ◌≡◌, sym, List, [], ◌++◌, arith}
use mac_kinect_native.Base.Lists.{
  length, take, drop, length-append, take_all, drop_all, drop-append,
}
use mathlib.Core.List.{append-nil}

pub record DiskFile : Type 0 where
  pub content : List ℕ
  pub position : ℕ
  pub room : ℕ

unfoldable pub new_file : ℕ → DiskFile
new_file room = record { content = []; position = 0; room = room }

-- `std::fseek(file, 0, SEEK_SET)`.
unfoldable pub rewind : DiskFile → DiskFile
rewind f = record f { position = 0 }

-- What is written over the bytes from the position on, and past their end.
unfoldable pub fwrite : List ℕ → DiskFile → DiskFile × ℕ
fwrite bytes f =
    let fits = take (f.room - f.position) bytes in
    let f' = record f {
      content = take f.position f.content ++ (fits ++ drop (f.position + length fits) f.content);
      position = f.position + length fits;
    } in
    (f', length fits)

-- A write at the end that fits appends, and reports all its bytes.
pub fwrite_at_end :
    (bytes : List ℕ) (f : DiskFile)
    → f.position ≡ length f.content
    → length f.content + length bytes ≤ f.room
    → fwrite bytes f ≡ (
      record f { content = f.content ++ bytes; position = length (f.content ++ bytes) },
      length bytes,
    )
unfolding fwrite
fwrite_at_end bytes f e h = rw (take_all (f.room - f.position) bytes (omega arith)) (
    ground (
      arith,
      take_all f.position f.content (omega arith),
      drop_all (f.position + length bytes) f.content (omega arith),
      append-nil bytes,
      length-append f.content bytes,
    ))

-- A write over the first bytes of a file leaves those behind it.
pub fwrite_over :
    (old new rest : List ℕ) (f : DiskFile)
    → f.content ≡ old ++ rest
    → length new ≡ length old
    → length old ≤ f.room
    → fwrite new (rewind f)
      ≡ (record f { content = new ++ rest; position = length new }, length new)
unfolding fwrite rewind
fwrite_over old new rest f e same h =
    rw (take_all (f.room - 0) new (omega arith))
      (ground (arith, drop-append (length new) old rest (sym same)))
