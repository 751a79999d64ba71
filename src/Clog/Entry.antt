-- ===== src/Clog/Entry.antt =====
-- LogEntry and LogHeader (log_entry.h, log_entry.cpp), and the bytes that a file holds of them.
use miniob4cqu_db_exp.Common.{
  ℕ, ◌+◌, ◌-◌, ◌*◌, ◌^◌, ◌%◌, Bool, ◌&&◌, ◌≤◌, ◌<◌, ◌≡◌, List, ◌++◌, length, length-append, take,
  drop, arith, ltb, if◌then◌else◌, Option, none, some, little_endian, from_little_endian,
  length-little_endian, from_little_endian-little_endian, pow256,
}

pub record LogHeader : Type 0 where
  pub lsn : ℕ
  pub size : ℕ
  pub module_id : ℕ

-- The size of an entry is that of its data.
pub record LogEntry : Type 0 where
  pub lsn : ℕ
  pub module_id : ℕ
  pub payload : List ℕ

-- LogHeader::SIZE
abbrev pub header_size : ℕ
header_size = 16

abbrev pub max_payload_size : ℕ
max_payload_size = 4 * 1024 * 1024 - 16

abbrev pub total_size : LogEntry → ℕ
total_size e = header_size + length e.payload

-- `static_cast<int32_t>(size) > max_payload_size()`: from 2^31 on the size wraps to a negative one.
abbrev pub is_too_large : ℕ → Bool
is_too_large size =
    let wrapped = size % 2 ^ 32 in ltb wrapped (2 ^ 31) && ltb max_payload_size wrapped

-- `init`; `none` is RC::INVALID_ARGUMENT. The header's size is that of the data below 2^31 bytes.
unfoldable pub init : ℕ → ℕ → List ℕ → Option LogEntry
init lsn module_id payload =
    if is_too_large (length payload)
    then none
    else some (record { lsn = lsn; module_id = module_id; payload = payload })

-- The header in memory: an int64_t and two int32_t.
unfoldable pub header_bytes : LogHeader → List ℕ
header_bytes h = little_endian 8 h.lsn ++ (little_endian 4 h.size ++ little_endian 4 h.module_id)

unfoldable pub header_of_bytes : List ℕ → LogHeader
header_of_bytes bytes = record {
  lsn = from_little_endian (take 8 bytes);
  size = from_little_endian (take 4 (drop 8 bytes));
  module_id = from_little_endian (take 4 (drop 12 bytes));
}

abbrev pub header_of : LogEntry → LogHeader
header_of e = record { lsn = e.lsn; size = length e.payload; module_id = e.module_id }

-- What `write` adds to a file.
unfoldable pub entry_bytes : LogEntry → List ℕ
unfolding header_bytes
entry_bytes e = header_bytes (header_of e) ++ e.payload

-- The fields fit their types, and the data is no larger than `init` lets pass.
pub record Fits (e : LogEntry) : Type 0 where
  pub lsn : e.lsn < pow256 8
  pub module_id : e.module_id < pow256 4
  pub size : length e.payload ≤ max_payload_size

pub length-header_bytes : (h : LogHeader) → length (header_bytes h) ≡ header_size
unfolding header_bytes
length-header_bytes h = omega (
  arith,
  length-append (little_endian 8 h.lsn) (little_endian 4 h.size ++ little_endian 4 h.module_id),
  length-append (little_endian 4 h.size) (little_endian 4 h.module_id),
  length-little_endian 8 h.lsn,
  length-little_endian 4 h.size,
  length-little_endian 4 h.module_id,
)

pub header_of_bytes-header_bytes :
    (h : LogHeader)
    → h.lsn < pow256 8
    → h.size < pow256 4
    → h.module_id < pow256 4
    → header_of_bytes (header_bytes h) ≡ h
unfolding header_bytes header_of_bytes little_endian
header_of_bytes-header_bytes h a b c = λ i. record {
  lsn = from_little_endian-little_endian 8 h.lsn a i;
  size = from_little_endian-little_endian 4 h.size b i;
  module_id = from_little_endian-little_endian 4 h.module_id c i;
}
