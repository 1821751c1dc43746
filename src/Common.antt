-- ===== src/Common.antt =====
-- bcos-scheduler/Common.h: the error codes and the gas of a transaction.
use bcos_dispatcher.Base.{ℕ}

pub data SchedulerError : Type 0 where
  unknown_error invalid_status invalid_block_number invalid_blocks next_block_error : SchedulerError
  prewrite_block_error commit_error rollback_error unexpected_key_lock_error : SchedulerError
  batch_error dmt_error dag_error : SchedulerError

abbrev pub transaction_gas : ℕ
transaction_gas = 30000000000
