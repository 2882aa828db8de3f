-- ===== src/Walparser/Record.antt =====
-- xlog_record.go, block_locations_util.go and the rest of read_xlog_record.go: a whole record.
use Prim.Native.Nat.{bit_and}
use extract.Common.{
  ℕ, zero, suc, ◌+◌, ◌-◌, ◌%◌, ◌^◌, List, [], ◌∷◌, ◌++◌, ◌==◌, if◌then◌else◌, Bool, true, false,
  ◌&&◌, Option, none, some, Result, ok, err,
}
use extract.Walparser.Readers.{
  ParseError, no_progress, ShrinkableReader, bytes_reader, shrinkable_reader, M, after, ◌>>=◌, ◌>>◌,
  pure, parse_field, read_full, shrink,
}
use extract.Walparser.Location.{RelFileNode, BlockLocation}
use extract.Walparser.Header.{XLogRecordHeader, xlog_record_header_size, read_xlog_record_header}
use extract.Walparser.Block.{
  XLogRecordBlockHeader, has_image, has_data, read_xlog_record_block_header,
}

pub record XLogRecordBlock : Type 0 where
  pub header : XLogRecordBlockHeader
  pub image : List ℕ
  pub contents : List ℕ

pub record XLogRecord : Type 0 where
  pub header : XLogRecordHeader
  pub main_data_len : ℕ
  pub origin : ℕ
  pub blocks : List XLogRecordBlock
  pub main_data : List ℕ

unfoldable pub new_xlog_record : XLogRecordHeader → XLogRecord
new_xlog_record h = record {
  header = h;
  main_data_len = 0;
  origin = 0;
  blocks = [];
  main_data = [];
}

-- RmXlogID is 0; the low four bits of the info are XlrInfoMask.
unfoldable pub is_wal_switch : XLogRecord → Bool
is_wal_switch r = r.header.resource_manager_id == 0 && bit_and r.header.info 0xf0 == 0x40

abbrev Bytes : Type 0
Bytes = List ℕ

-- What the loop over the header part has read: the record, the last relation, and the least block
-- id that may come next.
pub record HeaderPart : Type 0 where
  pub so_far : XLogRecord
  pub last_rel_file_node : Option RelFileNode
  pub next_block_id : ℕ

unfoldable pub add_block : HeaderPart → XLogRecordBlockHeader → HeaderPart
add_block p h =
    let r = p.so_far in
    record {
      so_far = record r {
        blocks = r.blocks ++ record { header = h; image = []; contents = [] } ∷ [];
      };
      last_rel_file_node = some h.block_location.relation_file_node;
      next_block_id = suc h.block_id;
    }

abbrev pub set_main_data_len : HeaderPart → ℕ → HeaderPart
set_main_data_len p n = let r = p.so_far in record p { so_far = record r { main_data_len = n } }

abbrev pub set_origin : HeaderPart → ℕ → HeaderPart
set_origin p n = let r = p.so_far in record p { so_far = record r { origin = n } }

-- One round of the loop: what follows a block id.
unfoldable pub read_header_item : HeaderPart → ℕ → M (ShrinkableReader Bytes) HeaderPart
read_header_item p block_id =
    if block_id == 255
    then (do n ← parse_field 1; shrink n; pure (set_main_data_len p n))
    else if block_id == 254
    then (do n ← parse_field 4; shrink n; pure (set_main_data_len p n))
    else if block_id == 253
    then (do n ← parse_field 2; pure (set_origin p n))
    else (do
      h ← read_xlog_record_block_header p.last_rel_file_node block_id p.next_block_id
      pure (add_block p h))

-- Every round reads a byte at least, so what remains at the start is fuel enough.
unfoldable pub read_header_items : ℕ → HeaderPart → M (ShrinkableReader Bytes) HeaderPart
read_header_items zero p s = if s.data_remained == 0 then (ok p, s) else (err no_progress, s)
read_header_items (suc fuel) p s =
    if s.data_remained == 0
    then (ok p, s)
    else after ((do block_id ← parse_field 1; read_header_item p block_id) s)
        (λ p'. read_header_items fuel p')

-- The inner reader goes on where the shrinkable one leaves it.
unfoldable pub read_xlog_record_block_header_part : XLogRecord → M Bytes XLogRecord
read_xlog_record_block_header_part r s =
    let size = (r.header.total_record_length + 2 ^ 32 - xlog_record_header_size) % 2 ^ 32 in
    let start : HeaderPart = record { so_far = r; last_rel_file_node = none; next_block_id = 0 } in
    let done = read_header_items size start (record { inner_reader = s; data_remained = size }) in
    (elim done.0 [ ok p ↦ ok p.so_far | err e ↦ err e ], done.1.inner_reader)

unfoldable pub read_if : Bool → ℕ → M Bytes Bytes
read_if true n = read_full n
read_if false n = pure []

unfoldable pub read_blocks : List XLogRecordBlock → M Bytes (List XLogRecordBlock)
read_blocks [] = pure []
read_blocks (b ∷ blocks) = do
  image ← read_if (has_image b.header.fork_flags) b.header.image_header.image_length
  contents ← read_if (has_data b.header.fork_flags) b.header.data_length
  rest ← read_blocks blocks
  pure (record { header = b.header; image = image; contents = contents } ∷ rest)

unfoldable pub read_xlog_record_body : XLogRecordHeader → M Bytes XLogRecord
read_xlog_record_body h = do
  r ← read_xlog_record_block_header_part (new_xlog_record h)
  blocks ← read_blocks r.blocks
  main_data ← read_full r.main_data_len
  pure (record r { blocks = blocks; main_data = main_data })

-- The parser on a slice, and what it leaves unread.
unfoldable pub parse_xlog_record : M Bytes XLogRecord
parse_xlog_record = do h ← read_xlog_record_header; read_xlog_record_body h

unfoldable pub parse_xlog_record_from_bytes : Bytes → Result ParseError XLogRecord
parse_xlog_record_from_bytes s = (parse_xlog_record s).0

-- A record that the parser returns is never zero for IsZero, whose blocks and main data are not nil.
unfoldable pub block_locations : List XLogRecordBlock → List BlockLocation
block_locations [] = []
block_locations (b ∷ blocks) = b.header.block_location ∷ block_locations blocks

unfoldable pub extract_block_locations : List XLogRecord → List BlockLocation
unfolding block_locations
extract_block_locations [] = []
extract_block_locations (r ∷ records) = block_locations r.blocks ++ extract_block_locations records
