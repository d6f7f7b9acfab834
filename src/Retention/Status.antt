-- ===== src/Retention/Status.antt =====
-- internal/utils/dumpstatus/status.go: the status of a dump from the files of its directory. The
-- storage is a parameter: what Stat and GetObject answer for the two files, the second with the
-- answer of reading the object. So is the JSON decoder. A time is a number of nanoseconds, and the
-- clock is read once for all directories.
use greenmask.Common.{
  ℕ, ◌+◌, ◌*◌, Bytes, codes, bytes_eq, Option, none, some, Bool, true, false, not, Error, String,
  Result, ok, err, panicked, stuck, wrap, file_not_found, on_ok, if◌then◌else◌, ltb, length, ◌==◌,
}

pub record Metadata : Type 0 where
  pub started_at : ℕ
  pub db_name : Bytes

pub record ObjectStat : Type 0 where
  pub exist : Bool
  pub last_modified : ℕ

pub record Directory : Type 0 where
  pub dirname : Bytes
  pub stat_heart_beat : Result ObjectStat
  pub stat_metadata : Result ObjectStat
  pub get_heart_beat : Result (Result Bytes)
  pub get_metadata_json : Result Bytes

pub data DumpStatus : Type 0 where
  done unknown_or_failed failed in_progress : DumpStatus

-- `errors.Is(err, storages.ErrFileNotFound)`, through the errors that wrap it.
unfoldable pub is_file_not_found : Error → Bool
is_file_not_found file_not_found = true
is_file_not_found (wrap msg e) = is_file_not_found e
is_file_not_found _ = false

-- `fmt.Errorf(msg, err)`
abbrev pub wrapping : {A : Type 0} → String → Result A → Result A
wrapping msg (ok a) = ok a
wrapping msg (err e) = err (wrap msg e)
wrapping msg panicked = panicked
wrapping msg stuck = stuck

-- HeartBeatWriteInterval, 15 minutes in nanoseconds, and failedTimeoutMultiplayer.
abbrev pub heart_beat_write_interval : ℕ
heart_beat_write_interval = 900000000000

abbrev pub failed_timeout : ℕ
failed_timeout = 2

module _ (decode_json : Bytes → Result Metadata) where
  unfoldable pub get_metadata : Directory → Result Metadata
  get_metadata st =
      on_ok (wrapping "get metadata from storage: %w" st.get_metadata_json)
        (λ mf. wrapping "unable to read metadata: %w" (decode_json mf))

  -- A dump whose metadata is missing is no finished dump.
  abbrev pub done_with : Result Metadata → Result (DumpStatus × Option Metadata)
  done_with (ok md) = ok (done, some md)
  done_with (err e) =
      if is_file_not_found e
      then ok (unknown_or_failed, none)
      else err (wrap "failed to get metadata: %w" e)
  done_with panicked = panicked
  done_with stuck = stuck

  -- Dumps of versions that had no heart beat.
  abbrev pub legacy : Directory → ObjectStat → Result (DumpStatus × Option Metadata)
  legacy st metadata =
      if not metadata.exist then ok (unknown_or_failed, none) else done_with (get_metadata st)

  -- The answer by the content of the heart beat.
  abbrev pub by_content : ℕ → Directory → ObjectStat → Bytes → Result (DumpStatus × Option Metadata)
  by_content now st info content =
      if length content == 0
      then ok (failed, none)
      else if bytes_eq content (codes "done")
      then done_with (get_metadata st)
      else if bytes_eq content (codes "in-progress")
      then (if ltb (info.last_modified + heart_beat_write_interval * failed_timeout) now
          then ok (failed, none)
          else ok (in_progress, none))
      else ok (unknown_or_failed, none)

  abbrev pub by_heart_beat : ℕ → Directory → ObjectStat → Result (DumpStatus × Option Metadata)
  by_heart_beat now st info =
      if not info.exist
      then on_ok st.stat_metadata (legacy st)
      else on_ok (wrapping "failed to get heart beat file: %w" st.get_heart_beat)
          (λ f. on_ok (wrapping "failed to read heart beat file: %w" f) (by_content now st info))

  unfoldable pub get_dump_status_and_metadata :
      ℕ → Directory → Result (DumpStatus × Option Metadata)
  unfolding get_metadata
  get_dump_status_and_metadata now st = on_ok st.stat_heart_beat (by_heart_beat now st)
