-- ===== src/ControlFile.antt =====
-- control_file.py: the bounded read of a file that an operator controls. The answers of the operating
-- system are an argument; a descriptor stands for the bytes that are left to be read from it.
pub mod Loop
pub mod Bounded
pub mod Safe
pub mod Ends
use repo_health_doctor.Base.{
  ℕ, zero, suc, ◌+◌, ◌-◌, ◌*◌, ◌/◌, ◌%◌, Bool, true, false, not, ◌&&◌, ◌||◌, Option, none, some,
  List, length, eqb, ltb, if◌then◌else◌,
}
use repo_health_doctor.Base.Int.{ℤ}
use repo_health_doctor.ControlFile.Loop.{
  Reading, content, too_much, read_failed, out_of_fuel, bounded_read,
}

-- ControlFileState, which is read off a stat result
pub record ControlFileState : Type 0 where
  pub device : ℕ
  pub inode : ℕ
  pub mode : ℕ
  pub size : ℕ
  pub mtime_ns : ℕ
  pub ctime_ns : ℕ

-- `stat.S_ISLNK` and `stat.S_ISREG`: the file type is in the bits 12 to 15 of the mode
abbrev pub is_link : ControlFileState → Bool
is_link s = eqb (s.mode / 4096 % 16) 10

abbrev pub is_regular : ControlFileState → Bool
is_regular s = eqb (s.mode / 4096 % 16) 8

-- `_same_file_state`
unfoldable pub same_file_state : ControlFileState → ControlFileState → Bool
same_file_state a b =
    eqb a.device b.device
    && eqb a.inode b.inode
    && eqb a.mode b.mode
    && eqb a.size b.size
    && eqb a.mtime_ns b.mtime_ns
    && eqb a.ctime_ns b.ctime_ns

-- `lstat`: FileNotFoundError, another OSError, or a result
pub data Lstat : Type 0 where
  absent unreadable : Lstat
  present : ControlFileState → Lstat

-- `open`: ELOOP, another OSError, or the bytes of the file
pub data Opening : Type 0 where
  loop refused : Opening
  opened : List ℕ → Opening

-- What the operating system answers, in the order in which it is asked; none is an OSError.
pub record FileSystem : Type 0 where
  pub no_follow : Bool
  pub lstat : Lstat
  pub open_file : Opening
  pub fstat : Option ControlFileState
  pub read : List ℕ → ℤ → Option (List ℕ × List ℕ)
  pub fstat_after : Option ControlFileState

pub data Reason : Type 0 where
  too_large no_follow_unsupported not_found file_changed symlink_refused not_regular parse_failed :
      Reason

-- A content with its state, a ControlFileReadError, or the OSError of a read, which nothing catches.
-- `stuck` would stand for a loop that has run out of fuel.
pub data Outcome : Type 0 where
  read_all : List ℕ → ControlFileState → Outcome
  control_file_error : Reason → Outcome
  os_error stuck : Outcome

-- the second `fstat`, and the comparison with the first
unfoldable pub after_content : ControlFileState → List ℕ → Option ControlFileState → Outcome
unfolding same_file_state
after_content before bytes none = control_file_error file_changed
after_content before bytes (some after) =
    if not (same_file_state before after) || not (eqb (length bytes) after.size)
    then control_file_error file_changed
    else read_all bytes after

unfoldable pub after_reading : ControlFileState → Option ControlFileState → Reading → Outcome
unfolding after_content
after_reading state after (content bytes) = after_content state bytes after
after_reading state after too_much = control_file_error too_large
after_reading state after read_failed = os_error
after_reading state after out_of_fuel = stuck

module _ (fs : FileSystem) (max_bytes : ℕ) where
  -- from the first `fstat` to the end of the read
  unfoldable pub after_open : ControlFileState → List ℕ → Option ControlFileState → Outcome
  unfolding after_reading bounded_read same_file_state
  after_open before bytes none = control_file_error file_changed
  after_open before bytes (some state) =
      if not (is_regular state) || not (same_file_state before state)
      then control_file_error file_changed
      else if ltb max_bytes state.size
      then control_file_error too_large
      else after_reading state fs.fstat_after (bounded_read fs.read max_bytes bytes)

  unfoldable pub after_opening : ControlFileState → Opening → Outcome
  unfolding after_open
  after_opening before loop = control_file_error symlink_refused
  after_opening before refused = control_file_error file_changed
  after_opening before (opened bytes) = after_open before bytes fs.fstat

  unfoldable pub after_lstat : Lstat → Outcome
  unfolding after_opening
  after_lstat absent = control_file_error not_found
  after_lstat unreadable = control_file_error file_changed
  after_lstat (present before) =
      if is_link before
      then control_file_error symlink_refused
      else if not (is_regular before)
      then control_file_error not_regular
      else if ltb max_bytes before.size
      then control_file_error too_large
      else after_opening before fs.open_file

  unfoldable pub read_bounded_control_file : Outcome
  unfolding after_lstat
  read_bounded_control_file =
      if ltb max_bytes 1
      then control_file_error too_large
      else if not fs.no_follow
      then control_file_error no_follow_unsupported
      else after_lstat fs.lstat
