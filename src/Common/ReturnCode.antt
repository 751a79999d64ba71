-- ===== src/Common/ReturnCode.antt =====
-- The return codes of common/rc.h that the modelled code returns.
use mathlib.Core.Bool.{Bool, true, false}

pub data Rc : Type 0 where
  success invalid_argument unimplemented internal : Rc
  record_nomem record_invalid_rid record_not_exist record_invisible record_eof : Rc
  record_openned locked_concurrency_conflict full not_exist : Rc
  schema_table_not_exist ioerr_read log_file_full file_not_opened : Rc
  empty record_duplicate_key bufferpool_nobuf bufferpool_invalid_page_num : Rc

-- `OB_SUCC(rc)`
abbrev pub succeeded : Rc → Bool
succeeded success = true
succeeded _ = false
