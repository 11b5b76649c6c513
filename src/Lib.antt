-- ===== src/Lib.antt =====
-- The storage node of the Push network: it takes blocks of transactions that validators signed,
-- stores each once, and puts its transactions into the inboxes of the wallets on its shards.
--
-- How the parts interact. A block arrives by `push_putBlock` or from the queue of a validator, and
-- StorageNode.handleBlock checks its signatures (BlockUtil.checkBlockAsSNode) against the
-- validators of the validator contract (ValidatorContractState), computes the shards it affects
-- (BlockUtil.calculateAffectedShards), saves it (BlockStorage.saveBlockWithShardData) and unpacks it
-- (IndexStorage.unpackBlockToInboxes) into rows that DbHelper writes. The storage contract
-- (StorageContractState) says which shards the node serves.
--
-- Base: shared names, equality as an interface, lists, JavaScript's `Set` and `Map`, errors as
--   values (Results) and state with errors (Steps). An error does not undo what was written, since
--   the code runs outside of transactions.
-- Utilz: src/utilz. Coll (coll.ts), StrUtil (strUtil.ts and the methods of strings), ChainUtil
--   (chainUtil.ts), BitUtil (bitUtil.ts: Hex and Positions).
-- Proto: src/generated/push/block_pb.d.ts, the messages of a block.
-- Ext: what the code calls and does not implement. Hashing, signatures, encodings and protobuf are
--   functions that a theorem is about any choice of; a law that one needs is its hypothesis. The only
--   such law says that a block is read back from its own encoding. Ext.Toy is the instance of the
--   tests.
-- PushSdkUtil: src/services/messaging-common/pushSdkUtil.ts, the signatures of transactions.
-- BlockUtil: src/services/messaging-common/blockUtil.ts. Shards (which shards a block affects), Tx
--   (the checks of a transaction), Signers (who signed a block, checkBlockAsSNode), Attestor
--   (checkBlockAsAttestor, checkBlockFinalized), CheckR (the answer of a check).
-- StorageContractState, ValidatorContractState: the files of these names in
--   src/services/messaging-common, as records and the functions of their events.
-- Db: the tables that src/services/messaging/BlockStorage.ts creates, as lists of rows.
-- Transactions: src/services/transactions, the keys and wallets of an identity.
-- DbHelper: src/helpers/dbHelper.ts, the rows of the inboxes (putValueInStorageTable) and what is
--   indexed from a transaction.
-- BlockStorage, IndexStorage, StorageNode: the files of these names in src/services/messaging.
-- SnodeInfoUtil: src/utilz/snodeInfoUtil.ts, the nodes that are asked for new shards.
-- BlockUtil/Patch: appendPatchAsValidator and recoverPatchAddress. An attestation that a patch lacks is
--   an error when it is put into the block, not when the block is serialized next.
-- IndexStorage/Expiry: the deletion of expired rows and blocks, page by page.
-- QueueTypes, QueueServer, QueueClient: src/services/messaging-dset. The log that others read by
--   pages, and the poll of such a log. A table with a serial id is a list of rows and the next id; which
--   insertions it takes is an argument, as the table of the repository lacks a column of the statements.
-- Utilz/RpcUtil: src/utilz/rpcUtil.ts, remote calls with retries.
-- PushPutBlock: src/rpc/push_putBlock.ts, the blocks that validators hand over.
-- QueueClientHelper: src/services/messaging-common/queueClientHelper.ts, the rows of dset_client. The text
--   of a url that is null cannot be inserted; an id is taken from the sequence for every insertion.
-- SyncTable, Views: src/services/block/block.ts. The table storage_sync_info, and the views that a node
--   offers to others. The order of rows of one time, a view's name and how COUNT(*)
--   compares with 0 are arguments.
-- StorageSyncClient, BlockPolling: src/services/messaging/storageSyncClient.ts and
--   src/services/block/blockPolling.ts. Other nodes are a parameter, `Remote`, and `serve` is a node
--   that runs this code. A round of a client is one step, and the blocks of a page are handled in turn.
-- IndexStorage/Removal, StorageNode/Reshard: setExpiryTimeForTransactions,
--   updateBlockExpiryTimestampPaginated and handleReshard. In which order the pages are answered is an
--   argument, and so is what the other nodes answer to storage_getShardView. The argument oldShardsTest,
--   which is for tests, is left out.
-- DbHelper/Inbox, DbHelper/AccountInfo: getTransactions and getAccountInfo of src/helpers/dbHelper.ts.
--   The text of a time is its number of microseconds; rows of one time stand in the order of insertion.
-- DbHelper/Lookup: findValueInStorageTable. StorageNode/Delivery: from an accepted block to the inbox.
-- Rpc: the other endpoints of src/rpc.
--
-- A function of the code is the definition of its name in snake case; a loop is a function by
-- recursion beside it, and the statements after an early return are an argument of the check before
-- them. A theorem stands in a module named Laws, or after what it is about,
-- and the tests of a part in Tests.
--
-- Bounds and fuel. Numbers are unbounded, as the code's are below 2^53. `bitsToPositions` runs on
-- fuel: 33 rounds, which are enough for a mask of 32 bits, as its theorem says. So does
-- deleteExpiredBlocksPaginated and updateBlockExpiryTimestampPaginated, with one step for each block
-- and one more. The loop of a client of the synchronization takes a round for each row of the view
-- and two more. What does not return is `none`.
--
-- Not modelled: the HTTP server, logging, the drivers of the databases, timers, reading the
-- environment, and the connections to the chain; they carry values in and out. Column widths of the
-- tables, and the order in which PostgreSQL answers without ORDER BY, which is the order of
-- insertion here, but for the pages of a view and those of an update, where it is an argument. Of the polling of other nodes, its retries and delays.
pub mod Base
pub mod BlockPolling
pub mod BlockStorage
pub mod BlockUtil
pub mod Db
pub mod DbHelper
pub mod Ext
pub mod IndexStorage
pub mod Proto
pub mod PushPutBlock
pub mod PushSdkUtil
pub mod QueueClient
pub mod QueueClientHelper
pub mod QueueServer
pub mod QueueTypes
pub mod Rpc
pub mod SnodeInfoUtil
pub mod StorageContractState
pub mod StorageNode
pub mod StorageSyncClient
pub mod SyncTable
pub mod Transactions
pub mod Utilz
pub mod ValidatorContractState
pub mod Views
