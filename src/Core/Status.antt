-- ===== src/Core/Status.antt =====
-- include/carquet/error.h: the status codes.
use mathlib.Core.Bool.{Bool, true, false}

-- `carquet_status_t`, without the common prefix of its constants.
pub data Status : Type 0 where
  ok error_invalid_argument error_out_of_memory error_not_implemented error_internal
        error_file_not_found error_file_open error_file_read error_file_write error_file_seek
        error_file_truncated error_invalid_magic error_invalid_footer error_invalid_schema
        error_invalid_metadata error_invalid_page error_invalid_encoding error_version_not_supported
        error_thrift_decode error_thrift_encode error_thrift_invalid_type error_thrift_truncated
        error_decode error_encode error_dictionary_not_found error_invalid_rle error_invalid_delta
        error_compression error_decompression error_unsupported_codec error_invalid_compressed_data
        error_type_mismatch error_column_not_found error_row_group_not_found error_end_of_data
        error_checksum error_crc_mismatch error_invalid_state error_already_closed error_not_open :
      Status

-- `CARQUET_FAILED` negated: the test `status == CARQUET_OK`.
abbrev pub is_ok : Status → Bool
is_ok ok = true
is_ok _ = false
