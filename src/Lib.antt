-- ===== src/Lib.antt =====
-- The core of openim-sdk-core, a client library for instant messaging.
--
-- Parts and how they interact. The long connection delivers pushes and connection events to the
-- message synchroniser (`MsgSyncer`), which keeps for each conversation the sequence number up to
-- which messages are synced, asks the server for what is missing and hands messages to the
-- conversation queue. The data synchroniser (`Syncer`) brings a local table (friends, groups,
-- conversations) to the server's data, and the version synchroniser (`VersionSync`) asks only for what
-- changed and calls it. Pushes pass the batcher (`MessageBatcher`) under load, a reader of history
-- checks its blocks for gaps (`History`), and subscriptions to the online status of users
-- (`Subscription`) live as long as a connection. Messages to send are numbered by the send queue
-- (`SendQueue`), and the long connection (`LongConn`) orders them by these numbers, writes them, gives
-- each response to the request that waits for it (`LongConn.Replies`), reads what the server sends,
-- and connects again (`Reconnect`). New messages from the conversation queue are sorted into rows to
-- insert and conversations to change (`NewMessages`). A file is cut into parts and uploaded, with a
-- bitmap of the parts that are there (`Upload`, `Bitmap`).
--
-- Files. Prelude holds the shared names and lemmas: tests on numbers and keys, lists, association lists
-- for Go's maps, and the outcome of a call that returns an error.
--   Syncer.antt is pkg/syncer/syncer.go: `sync` is `Syncer.Sync`, `on_notice` is `onNotice`, `eq` is `eq`.
--     The callbacks of the struct are functions on a world, which is what they change. Syncer/Table says
--     what it means that the callbacks keep a table, Syncer/Items and Loops follow the two loops, and
--     Syncer/Convergence and Totality say where they end.
--   MsgSyncer.antt is internal/interaction/msg_sync.go: its state, what it sends, and the server. MsgSyncer/Need
--     is `getSeqsNeedSync` and `getNeedSyncConversations`, Pull the batches of `syncAndTriggerMsgs` and
--     `syncAndTriggerReinstallMsgs` and `compareSeqsAndBatchSync`, Push `doPushMsg`, Events the
--     handlers of connection events, Load `LoadSeq` and `splitSeqs`. The other modules below
--     MsgSyncer are proofs, named for what they prove.
--   MessageBatcher.antt is internal/interaction/message_batcher.go: `enqueue`, `on_timer` and `close` are
--     `Enqueue`, `onTimer` and `Close`, each a step on the state. Merge, Flush, Stream, Window and
--     Timer below it are proofs.
--   History.antt is internal/conversation_msg/message_check.go up to the request for missing messages: the
--     checks return the numbers to fetch. History/Exceptions is `handleExceptionMessages`; Lost,
--     Blocks, EndBlock, Merge and Pullable are proofs.
--   Subscription.antt is internal/interaction/subscription.go, with the statuses in a heap that callers and
--     the map share. Subscription/Pending and Waiters are proofs.
--   Reconnect.antt is internal/interaction/reconnect.go, and Reconnect/Cycle its proof.
--   VersionSync.antt is pkg/syncer/version_synchronizer.go: `incremental_sync` and `check_version_sync` over
--     callbacks on a world, as in Syncer. VersionSync/Stored and Overlay are proofs.
--   Paging.antt is the paging loops of pkg/network/http_client.go, on fuel; Paging/Whole and Store are their
--     proofs, and Syncer/Full is `FullSync` of pkg/syncer/syncer.go with its proof.
--   LongConn.antt holds the requests and messages of internal/interaction/long_conn_mgr.go and
--     ws_resp_asyn.go. LongConn/Lanes.antt is the write pump's ordering: `receive` is the body of
--     `processIncomingMessage`, `flush_lane` is `flushLane`, `handle_lane_timeout` its namesake, and a
--     dispatch is an element of the list that is returned. LongConn/Status.antt is the status, `reConn` and the
--     writes, LongConn/Status/Pump.antt is `handleMessage` and `readPump`, a round of the loop at a time, on
--     the state of Subscription and MessageBatcher. The other modules below them are proofs.
--   SendQueue.antt is internal/conversation_msg/send_queue.go: `decorate` gives the numbers by which the
--     lanes order messages. SendQueue/Numbering joins the two, SendQueue/Threshold is about media.
--   History/Pulled.antt is `fetchAndMergeMissingMessages` and `pullMessageIntoTable`; History/Pulled/Fresh, Tallied and
--     Sorting are proofs.
--   Bitmap.antt is internal/third/file/bitmap.go, `set_index` for `Set`, and so on. Bitmap/Bits, Words and Indices
--     are proofs.
--   LongConn/Replies.antt is internal/interaction/ws_resp_asyn.go: a method is a step, the mutex is `holder`, and
--     a `NotifyResp` that found its channel full has it. LongConn/Replies/Request.antt is `SendReqWaitResp`,
--     `dispatchMessage` and `sendAndWaitResp`, with the steps of other goroutines in between. The other
--     modules below LongConn/Replies are proofs.
--   NewMessages.antt is internal/conversation_msg/max_seq_recorder.go and `updateConversation` of
--     internal/conversation_msg/conversation_msg.go, NewMessages/Loop the loop of `doMsgNew` over the
--     messages, and NewMessages/Stored what follows it up to the writes, with `diff` and
--     `batchAddFaceURLAndName`. The other modules below NewMessages are proofs.
--   Upload.antt is `partSize`, `getPartNum` and the sizes of `getPartInfo` of internal/third/file/upload.go,
--     Upload/Start `getLocalUploadInfo` and `getUpload`, Upload/Transfer the loop of `UploadFile` over the
--     parts, Upload/Run `getPartInfo` and `UploadFile` around that loop, and Upload/Locks `lockHash` and
--     `unlockHash`, of which each section is a step of a goroutine; Upload/Run is what one goroutine does
--     between the two. Upload/Cut and the modules below the other four are proofs.
--   Tests holds concrete runs.
--
-- Conventions. Go's maps are association lists; a `range` over a map visits the list in order, so a
-- theorem for every list is one for every order. A call that returns `error` is an `Outcome`, with the
-- state at the return in both cases. int64 sequence numbers are ℕ: the code adds 1 to and compares
-- numbers of the server, far from the bound; sizes of files are ℕ for the same reason.
--
-- Parameters. The server's answers are functions of what was sent before, so they may change from one
-- request to the next. The callbacks of a `Syncer`, `cmp.Equal`, the zero value of a type and the
-- functions of `datautil` are parameters, and so are the readings of the clock and the rounding of the
-- delay in the batcher, the websocket, the codecs and the products of the send queue's estimator, the
-- strings of `GenMsgIncr`, and the generated id and random suffix of `handleExceptionMessages`, the
-- error of `PopulateMsgStructByContentType`, the rows that `doMsgNew` reads, and what reading, signing
-- and sending a part of a file meets. What other goroutines do between two steps of a request is a
-- list of steps, and theorems hold for every list.
--
-- Bounds and fuel. `parts_from` and `split_loop` count down the iterations that Go's loop condition
-- allows; the theorems on them show that these suffice. The paging loops take fuel, one round for each
-- element and one more, and are shown to end within it. `flush_loop` has a round for each message that
-- a lane keeps, `timeout_loop` as many as the greatest number kept, and both are shown to end; the 300
-- attempts of a write and the 100 of `submit` are the source's own bounds. Times are in nanoseconds,
-- those of messages and uploads in milliseconds.
--
-- Not modelled: logging, contexts and sleeping; the database's SQL (pkg/db); the websocket and HTTP
-- transports; the bindings in open_im_sdk and wasm; of message_check.go, the lookups of faces and
-- nicknames, and an answer with several conversations; `syncMsgBySeqs` and `WaitResp`, which nothing
-- calls; the goroutines of `LoadSeq` and of the reinstall pull run one after the other; of
-- conversation_msg.go, the writes and listeners after the loop of `doMsgNew` and the other commands;
-- of upload.go, the signatures of parts, the name and content type of the file, and the progress
-- callbacks.
pub mod Prelude
pub mod Bitmap
pub mod History
pub mod LongConn
pub mod MessageBatcher
pub mod MsgSyncer
pub mod NewMessages
pub mod Paging
pub mod Reconnect
pub mod SendQueue
pub mod Subscription
pub mod Syncer
pub mod Upload
pub mod VersionSync
pub mod Tests
