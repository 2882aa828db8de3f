-- ===== src/Increment/PageHeader.antt =====
-- postgres_page_header.go, and the sizes and errors of pagefile.go.
pub mod Whole
use extract.Common.{ℕ, ◌+◌, ◌*◌, ◌%◌, ◌^◌, List, Bool, true, false, not, ltb, leb, ◌==◌, ◌&&◌, ◌||◌}
use extract.Walparser.Readers.{ParseError, Reader, M, ◌>>=◌, pure, parse_field, bytes_reader}

abbrev pub database_page_size : ℕ
database_page_size = 8192

abbrev pub header_size : ℕ
header_size = 24

-- The errors of reading and writing increments. `panic` is a slice or a pointer that Go refuses,
-- `bad_size` a size that Truncate refuses, and `endless` says that a loop of the model ran out of rounds.
pub data IncrementError : Type 0 where
  read_error : ParseError → IncrementError
  invalid_block : ℕ → IncrementError
  invalid_increment_file_header unknown_increment_file_header : IncrementError
  unexpected_tar_data file_must_exist end_of_target bad_size : IncrementError
  panic endless : IncrementError

pub record PageHeader : Type 0 where
  pub pd_lsn_h : ℕ
  pub pd_lsn_l : ℕ
  pub pd_checksum : ℕ
  pub pd_flags : ℕ
  pub pd_lower : ℕ
  pub pd_upper : ℕ
  pub pd_special : ℕ
  pub pd_page_size_version : ℕ

unfoldable pub lsn : PageHeader → ℕ
lsn h = h.pd_lsn_h * 2 ^ 32 + h.pd_lsn_l

-- The three lowest bits are the valid flags; the layout version is 4.
unfoldable pub is_valid : PageHeader → Bool
unfolding lsn
is_valid h = not (
    not (h.pd_flags % 8 == h.pd_flags)
    || (ltb h.pd_lower header_size
        || (ltb h.pd_upper h.pd_lower
            || (ltb h.pd_special h.pd_upper
                || (ltb database_page_size h.pd_special
                    || (lsn h == 0 || not (h.pd_page_size_version == database_page_size + 4)))))))

unfoldable pub is_new : PageHeader → Bool
is_new h = h.pd_upper == 0

unfoldable pub parse_postgres_page_header : M (List ℕ) PageHeader
parse_postgres_page_header = do
  pd_lsn_h ← parse_field 4
  pd_lsn_l ← parse_field 4
  pd_checksum ← parse_field 2
  pd_flags ← parse_field 2
  pd_lower ← parse_field 2
  pd_upper ← parse_field 2
  pd_special ← parse_field 2
  pd_page_size_version ← parse_field 2
  pure (record {
    pd_lsn_h = pd_lsn_h;
    pd_lsn_l = pd_lsn_l;
    pd_checksum = pd_checksum;
    pd_flags = pd_flags;
    pd_lower = pd_lower;
    pd_upper = pd_upper;
    pd_special = pd_special;
    pd_page_size_version = pd_page_size_version;
  })
