-- ===== src/Lib.antt =====
-- bcos-scheduler: the scheduler module of FISCO BCOS, which executes and commits blocks of
-- transactions on a set of executors.
--
-- Sources are named by their paths from the root of the repository.
-- bcos-scheduler/SchedulerImpl.cpp accepts blocks and commits them in order,
-- bcos-scheduler/BlockExecutive.cpp runs one block in batches of messages, asks
-- bcos-scheduler/ExecutorManager.cpp which executor serves a contract, and keeps the key locks
-- of the contexts in bcos-scheduler/GraphKeyLocks.cpp.
--
-- * KeyLocks (bcos-scheduler/GraphKeyLocks.h, GraphKeyLocks.cpp): the graph is the list of its
--   edges and the list of its vertices; each method is the function of that name in lower case.
--   KeyLocks/Search states how Boost documents depth_first_visit, which is a parameter of
--   detect_dead_lock.
-- * Executors (bcos-scheduler/ExecutorManager.h, ExecutorManager.cpp): the maps and the queue
--   hold addresses of ExecutorInfo objects on a heap. The standard leaves open which of several
--   least loaded executors the queue returns; the model takes the first.
-- * Status (CommitStatus in bcos-scheduler/BlockExecutive.h): the counters of answers and
--   errors, and the runs of the threads that raise and check them, a list of steps in the order
--   in which they happen.
-- * Commit (bcos-scheduler/BlockExecutive.cpp): batchNextBlock, batchBlockCommit,
--   batchBlockRollback and asyncCommit. The answers of ledger, storage and executors are the
--   input, since their code is not part of the repository, those to the commit as the counts
--   and checks of the threads in their order; the result lists what the callback is given.
-- * Executive (ExecutiveState and m_executiveStates in bcos-scheduler/BlockExecutive.h,
--   traverseExecutive in BlockExecutive.cpp): the map is the list of its nodes in the order of
--   the keys. The callback is an argument, which returns its hint, the state it may have
--   changed and what else it changes. It may throw, and what the map then keeps is part of the
--   result.
-- * Hashes (bcos-scheduler/BlockExecutive.cpp): batchGetHashes, with the type of hashes and
--   their exclusive or as parameters.
-- * Address (bcos-scheduler/ChecksumAddress.h, newEVMAddress and preprocessAddress in
--   BlockExecutive.cpp): addresses are lists of bytes, letters those of the C locale. A read
--   past the end of a string, which C++ leaves undefined, is none.
-- * Batch (BatchStatus in bcos-scheduler/BlockExecutive.h, startBatch and checkBatch in
--   BlockExecutive.cpp): the counters of a batch, and runs of the threads that raise and check
--   them. That an exception leaves the traversal of checkBatch is a flag here; what that
--   traversal does to the states is part of Block.
-- * Block (asyncExecute, startBatch and checkBatch in bcos-scheduler/BlockExecutive.cpp): the
--   states that are made for the transactions, the messages that a batch sends, the answers,
--   and the traversals of checkBatch for key locks and dead locks, over the state of Executive,
--   KeyLocks, Executors and Batch together. The answers of the executors are the input, and
--   come after the batch has been sent. Block/Accounts puts the steps together, those of Dag
--   too.
-- * Dag (bcos-scheduler/BlockExecutive.cpp): DAGExecute, the messages that go together and what
--   becomes of the states, and the count down of the answers, as steps of the threads that
--   bring them.
-- * Execution (bcos-scheduler/BlockExecutive.cpp): asyncExecute and DMTExecute, which run
--   Commit's batchNextBlock, Dag, the batches and Hashes one after the other. How the batches
--   end is the input.
-- * Notify (bcos-scheduler/BlockExecutive.cpp): asyncNotify, over the receipts that the batches
--   of Block leave.
-- * Ledger (bcos-scheduler/SchedulerImpl.cpp): asyncGetLedgerConfig. The answers of the ledger
--   and the tests that follow them are the input, as steps of threads in their order, and the
--   conversion of a text to a number is a parameter.
-- * Requests (bcos-scheduler/SchedulerImpl.cpp): call over Execution, registerExecutor and
--   getCode over Executors.
-- * Scheduler (bcos-scheduler/SchedulerImpl.h, SchedulerImpl.cpp): executeBlock and commitBlock
--   are execute_block and commit_block; the callbacks that end their work are execute_done and
--   commit_done. Scheduler/Steps relates the states by these, in any order that the mutexes
--   allow.
--
-- Identifiers of contexts, numbers of blocks and sequence numbers are natural numbers, since
-- the scheduler counts them up from zero. Strings are lists of bytes. Logging and the measured
-- times are left out. The functions recurse on lists, so no fuel is used. Not modelled: the
-- tests and mocks, which are not part of the program, and of SchedulerImpl.cpp the requests
-- that only drop their callback or store a receiver. Of a message, its origin, depth and log
-- entries are left out, since they are only handed on.
mod Base
mod Common
pub mod KeyLocks
pub mod Executors
pub mod Status
pub mod Commit
pub mod Scheduler
pub mod Executive
pub mod Address
pub mod Batch
pub mod Hashes
pub mod Block
pub mod Ledger
pub mod Dag
pub mod Execution
pub mod Notify
pub mod Requests
