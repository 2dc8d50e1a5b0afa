-- ===== src/ControlFile/Ends.antt =====
-- The read of a control file ends.
use repo_health_doctor.Base.{
  ℕ, ◌≢◌, refl, Bool, true, false, not, ◌||◌, Option, none, some, List, length, eqb, ltb,
  if◌then◌else◌,
}
use repo_health_doctor.ControlFile.Loop.{
  Reading, content, too_much, read_failed, out_of_fuel, bounded_read,
}
use repo_health_doctor.ControlFile.Bounded.{RefusesNegative, bounded_read-answers}
use repo_health_doctor.ControlFile.{
  ControlFileState, is_link, is_regular, same_file_state, Lstat, absent, unreadable, present,
  Opening, loop, refused, opened, FileSystem, Reason, too_large, no_follow_unsupported,
  file_changed, symlink_refused, not_regular, Outcome, read_all, control_file_error, stuck,
  after_content, after_reading, after_open, after_opening, after_lstat, read_bounded_control_file,
}

unstuck :
    (b : Bool) (reason : Reason) (rest : Outcome)
    → rest ≢ stuck
    → (if b then control_file_error reason else rest) ≢ stuck
unstuck true reason rest n = λ h. cc
unstuck false reason rest n = n

after_content-answers :
    (first : ControlFileState) (found : List ℕ) (after : Option ControlFileState)
    → after_content first found after ≢ stuck
unfolding after_content
after_content-answers first found none = λ h. cc
after_content-answers first found (some after) =
    unstuck (not (same_file_state first after) || not (eqb (length found) after.size)) file_changed
      (read_all found after) (λ h. cc)

module _ (fs : FileSystem) (max_bytes : ℕ) (refuses : RefusesNegative fs.read) where
  after_reading-answers :
      (first : ControlFileState) (read : Reading)
      → read ≢ out_of_fuel
      → after_reading first fs.fstat_after read ≢ stuck
  unfolding after_reading
  after_reading-answers first (content found) n = after_content-answers first found fs.fstat_after
  after_reading-answers first too_much n = λ h. cc
  after_reading-answers first read_failed n = λ h. cc
  after_reading-answers first out_of_fuel n = absurd (n refl)

  opening-answers :
      (before : ControlFileState) (opening : Opening)
      → after_opening fs max_bytes before opening ≢ stuck
  unfolding after_opening after_open
  opening-answers before loop = λ h. cc
  opening-answers before refused = λ h. cc
  opening-answers before (opened source) = found fs.fstat
    where
      found :
          (fstat : Option ControlFileState) → after_open fs max_bytes before source fstat ≢ stuck
      found none = λ h. cc
      found (some first) =
          unstuck (not (is_regular first) || not (same_file_state before first)) file_changed _ (
            unstuck (ltb max_bytes first.size) too_large _ (
              after_reading-answers first (bounded_read fs.read max_bytes source)
                (bounded_read-answers fs.read max_bytes refuses source)))

  -- read_bounded_control_file ends: it gives a content or an error, whatever the system
  -- answers to reads of a length that is not negative.
  pub read_bounded_control_file-answers : read_bounded_control_file fs max_bytes ≢ stuck
  unfolding read_bounded_control_file after_lstat
  read_bounded_control_file-answers =
      unstuck (ltb max_bytes 1) too_large _
        (unstuck (not fs.no_follow) no_follow_unsupported _ (found fs.lstat))
    where
      found : (lstat : Lstat) → after_lstat fs max_bytes lstat ≢ stuck
      found absent = λ h. cc
      found unreadable = λ h. cc
      found (present before) = unstuck (is_link before) symlink_refused _ (
          unstuck (not (is_regular before)) not_regular _
            (unstuck (ltb max_bytes before.size) too_large _ (opening-answers before fs.open_file)))
