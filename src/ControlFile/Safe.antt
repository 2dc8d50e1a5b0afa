-- ===== src/ControlFile/Safe.antt =====
-- What a content that read_bounded_control_file returns has passed.
use repo_health_doctor.Base.{
  not-false, ℕ, ◌≤◌, ◌≡◌, refl, ap, ◌∙◌, Bool, true, false, not, Option, none, some, List, length,
  eqb, ltb, if◌then◌else◌, arith, or_false,
}
use repo_health_doctor.ControlFile.Loop.{
  Reading, content, too_much, read_failed, out_of_fuel, bounded_read,
}
use repo_health_doctor.ControlFile.Bounded.{bounded_read-content}
use repo_health_doctor.ControlFile.{
  ControlFileState, is_link, is_regular, same_file_state, Lstat, absent, unreadable, present,
  Opening, loop, refused, opened, FileSystem, Reason, Outcome, read_all, control_file_error,
  after_content, after_reading, after_open, after_opening, after_lstat, read_bounded_control_file,
}

-- A regular file and no link, that was the same before the opening, after it and after the read, and whose
-- content is what was read, in full and within the bound.
pub record IsSafe (fs : FileSystem) (max_bytes : ℕ) (bytes : List ℕ) (state : ControlFileState)
    : Type 0 where
  pub before : ControlFileState
  pub first : ControlFileState
  pub source : List ℕ
  pub named : fs.lstat ≡ present before
  pub no_link : is_link before ≡ false
  pub regular : is_regular before ≡ true
  pub opening : fs.open_file ≡ opened source
  pub same : same_file_state before first ≡ true
  pub fstat : fs.fstat ≡ some first
  pub unchanged : same_file_state first state ≡ true
  pub fstat_after : fs.fstat_after ≡ some state
  pub read : bounded_read fs.read max_bytes source ≡ content bytes
  pub bounded : length bytes ≤ max_bytes
  pub complete : length bytes ≡ state.size

-- A test that refuses was not met, where a content is returned.
unrefused :
    (b : Bool) (reason : Reason) (rest : Outcome) {bytes : List ℕ} {state : ControlFileState}
    → (if b then control_file_error reason else rest) ≡ read_all bytes state
    → (b ≡ false) × (rest ≡ read_all bytes state)
unrefused true reason rest h = cc
unrefused false reason rest h = (refl, h)

eqb-eq : (a b : ℕ) → eqb a b ≡ true → a ≡ b
eqb-eq a b h = ground arith

after_content-same :
    (first : ControlFileState) (found : List ℕ) (after : Option ControlFileState) {bytes : List ℕ}
    {state : ControlFileState}
    → after_content first found after ≡ read_all bytes state
    → (after ≡ some state)
      × (found ≡ bytes)
      × (same_file_state first state ≡ true)
      × (length bytes ≡ state.size)
unfolding after_content
after_content-same first found none h = cc
after_content-same first found (some after) {bytes} {state} h =
    let (refusals, last) = unrefused _ _ _ h in
    let (same, size) = or_false _ _ refusals in
    let is_state : after ≡ state = ap state_of last in
    let is_bytes : found ≡ bytes = ap bytes_of last in
    (
      ap some is_state,
      is_bytes,
      moved is_state (not-false _ same),
      counted is_bytes is_state (not-false _ size),
    )
  where
    state_of : Outcome → ControlFileState
    state_of (read_all b s) = s
    state_of _ = after

    bytes_of : Outcome → List ℕ
    bytes_of (read_all b s) = b
    bytes_of _ = found

    moved : after ≡ state → same_file_state first after ≡ true → same_file_state first state ≡ true
    moved q e = rw q at e

    counted :
        found ≡ bytes
        → after ≡ state
        → eqb (length found) after.size ≡ true
        → length bytes ≡ state.size
    counted p q e = rw (p, q) at (eqb-eq (length found) after.size e)

read_content :
    (first : ControlFileState) (after : Option ControlFileState) (read : Reading) {bytes : List ℕ}
    {state : ControlFileState}
    → after_reading first after read ≡ read_all bytes state
    → (found : List ℕ) × (read ≡ content found)
      × (after_content first found after ≡ read_all bytes state)
unfolding after_reading
read_content first after (content found) h = (found, refl, h)
read_content first after too_much h = cc
read_content first after read_failed h = cc
read_content first after out_of_fuel h = cc

module _ (fs : FileSystem) (max_bytes : ℕ) (bytes : List ℕ) (state : ControlFileState) where
  opened-IsSafe :
      (before : ControlFileState) (source : List ℕ) (fstat : Option ControlFileState)
      → fs.lstat ≡ present before
      → is_link before ≡ false
      → is_regular before ≡ true
      → fs.open_file ≡ opened source
      → fs.fstat ≡ fstat
      → after_open fs max_bytes before source fstat ≡ read_all bytes state
      → IsSafe fs max_bytes bytes state
  unfolding after_open
  opened-IsSafe before source none l n r o f h = cc
  opened-IsSafe before source (some first) l n r o f h =
      let (changed, h1) = unrefused _ _ _ h in
      let (_, same) = or_false (not (is_regular first)) _ changed in
      let (_, h2) = unrefused (ltb max_bytes first.size) _ _ h1 in
      let (found, read, last) =
        read_content first fs.fstat_after (bounded_read fs.read max_bytes source) h2 in
      let (after, is_bytes, unchanged, complete) =
        after_content-same first found fs.fstat_after last in
      let whole = read ∙ ap content is_bytes in
      record {
        before = before;
        first = first;
        source = source;
        named = l;
        no_link = n;
        regular = r;
        opening = o;
        same = not-false _ same;
        fstat = f;
        unchanged = unchanged;
        fstat_after = after;
        read = whole;
        bounded = bounded_read-content fs.read max_bytes source bytes whole;
        complete = complete;
      }

  opening-IsSafe :
      (before : ControlFileState) (opening : Opening)
      → fs.lstat ≡ present before
      → is_link before ≡ false
      → is_regular before ≡ true
      → fs.open_file ≡ opening
      → after_opening fs max_bytes before opening ≡ read_all bytes state
      → IsSafe fs max_bytes bytes state
  unfolding after_opening
  opening-IsSafe before loop l n r o h = cc
  opening-IsSafe before refused l n r o h = cc
  opening-IsSafe before (opened source) l n r o h =
      opened-IsSafe before source fs.fstat l n r o refl h

  lstat-IsSafe :
      (found : Lstat)
      → fs.lstat ≡ found
      → after_lstat fs max_bytes found ≡ read_all bytes state
      → IsSafe fs max_bytes bytes state
  unfolding after_lstat
  lstat-IsSafe absent l h = cc
  lstat-IsSafe unreadable l h = cc
  lstat-IsSafe (present before) l h =
      let (link, h1) = unrefused (is_link before) _ _ h in
      let (kind, h2) = unrefused (not (is_regular before)) _ _ h1 in
      let (_, h3) = unrefused (ltb max_bytes before.size) _ _ h2 in
      opening-IsSafe before fs.open_file l link (not-false _ kind) refl h3

  -- A content that read_bounded_control_file returns is that of a regular file and no link, which had the
  -- same state before the opening, after it and after the read; it is complete and within the bound,
  -- whatever the system answers to the reads.
  pub read_bounded_control_file-IsSafe :
      read_bounded_control_file fs max_bytes ≡ read_all bytes state
      → IsSafe fs max_bytes bytes state
  unfolding read_bounded_control_file
  read_bounded_control_file-IsSafe h =
      let (_, h1) = unrefused (ltb max_bytes 1) _ _ h in
      let (_, h2) = unrefused (not fs.no_follow) _ _ h1 in lstat-IsSafe fs.lstat refl h2
