-- ===== src/Minix/Zone/Read/Offset.antt =====
-- lseek and then read: the bytes of the file from an offset on.
use cs.Base.{ℕ, ◌≡◌, List, some}
use cs.Block.{Device}
use cs.Minix.{Fs}
use cs.Minix.Zone.{Descriptor}
use cs.Minix.Zone.Seek.{seek_set, lseek}
use cs.Minix.Zone.Seek.Position.{file_zones}
use cs.Minix.Zone.Read.Content.{At}

module _ {Disk : Type 0} (dev : Device Disk) (fs : Fs Disk) (ptrs : ℕ → List ℕ) where
  -- What `lseek` to a byte within the zones of a file returns, and that the entry is there.
  record There (fd : Descriptor) (offset : ℕ) : Type 0 where
    entry : Descriptor
    run : lseek dev fs fd offset seek_set ≡ some (offset, entry)
    at : At ptrs (file_zones ptrs fd) entry offset
    total : entry.total_read ≡ offset
    size : entry.size ≡ fd.size
