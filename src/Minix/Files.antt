-- ===== src/Minix/Files.antt =====
-- The table of file descriptors, and lseek and read on a number of it. A descriptor number is the 32-bit word
-- of an `int`. Neither function takes a lock.
use cs.Base.{
  ℕ, ◌-◌, ◌^◌, Bool, ◌||◌, ◌&&◌, not, Option, none, some, leb, ◌==◌, if◌then◌else◌, ◌>>=◌,
}
use cs.Block.{Device, Buffer}
use cs.Minix.{Fs}
use cs.Minix.Zone.{Descriptor}
use cs.Minix.Zone.Seek.{lseek}
use cs.Minix.Zone.Read.{read}

pub record Files : Type 0 where
  pub taken : ℕ → Bool
  pub entry : ℕ → Descriptor

-- `MAX_FD_ENTRIES`
abbrev pub max_fd_entries : ℕ
max_fd_entries = 256

-- `-EBADF` on 64 bits
abbrev pub bad_file : ℕ
bad_file = 2 ^ 64 - 9

pub in_use : Files → ℕ → Bool
in_use files fd = not (leb (2 ^ 31) fd || leb max_fd_entries fd) && files.taken fd

abbrev pub put_entry : Files → ℕ → Descriptor → Files
put_entry files fd e = record files { entry = λ i. if i == fd then e else files.entry i }

pub entry_after : {R : Type 0} → Files → ℕ → Option (R × Descriptor) → Option (R × Files)
entry_after files fd none = none
entry_after files fd (some r) = some (r.0, put_entry files fd r.1)

-- The tests at the beginning, and the entry that the function works on.
pub on_entry :
    {R : Type 0} → Files → ℕ → R → (Descriptor → Option (R × Descriptor)) → Option (R × Files)
on_entry files fd bad run =
    if in_use files fd then entry_after files fd (run (files.entry fd)) else some (bad, files)

module _ {Disk : Type 0} (dev : Device Disk) (fs : Fs Disk) where
  pub lseek_fd : Files → ℕ → ℕ → ℕ → Option (ℕ × Files)
  lseek_fd files fd offset whence = on_entry files fd bad_file (λ e. lseek dev fs e offset whence)

  pub read_fd : Buffer → Files → ℕ → Buffer → ℕ → Option ((ℕ × Buffer) × Files)
  read_fd stack files fd buf count =
      on_entry files fd (bad_file, buf)
        (λ e. read dev fs stack e buf count >>= (λ r. some ((r.0, r.1), r.2)))
