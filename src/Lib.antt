-- ===== src/Lib.antt =====
-- A model of parts of the cloudnan agent, a service that runs on a managed host and carries out the
-- commands of its control plane: database administration, file operations, SSH keys, log shipping.
--
-- Parts modelled, and where:
--
-- * internal/database/quote.go in Database/Quote: identifiers and string values are put into SQL by
--   quoting, privileges by a whitelist, with the fragment of ops_create.go that it guards. RoundTrip
--   reads quoted texts by the rules of the engines, Privileges is about the whitelist.
-- * internal/database/classify.go in Database/Classify: Skip is the four skip functions for quoted
--   text, Strip is stripCommentsAndCheckSingle, Paren is matchParen, With is firstKeyword,
--   consumeIdent and classifyWith, and Classify itself is ClassifyStatement. Strip, the verdict,
--   termination and the values that occur are treated in Strip/Statements, Verdict, With/Total and
--   Known, two gaps in Evasion and WritableCte.
-- * internal/database/token.go in Database/Token: the store of the secret, and verifyOpToken in two
--   halves, open_token up to the parsed payload and check_claims for what it says.
-- * internal/database/ops_query.go in Database/Query: the limits, chunks, runQuery and runExec; and
--   opExecQuery in Query/Operation. It calls the classifier and the token check; the instance, the
--   query and the execution are the record Backend.
-- * internal/database/encrypt_stream.go and decrypt_stream.go in Database/Stream: Encrypt has Write,
--   Close and flushBlock, Decrypt has Read and nextFrame. Framed is the format that both share.
-- * internal/database/sink.go in Database/Sink: Write, Close and Abort of LocalFileSink; Lifecycle is
--   about sequences of them.
-- * internal/filesystem/manager.go in Filesystem/Manager: resolvePath and the operations behind it,
--   over the operating system as the record Os.
-- * internal/executor/executor.go in Executor: the guards, Execute and ExecuteInstall, Patterns with
--   the regular expressions of the block list, and Stream with ExecuteStream and streamPipe. The shell
--   and a started command are parameters. Quoting has a reader of shell words, Streams the orders in
--   which the goroutines of the two pipes may call the writer.
-- * internal/ssh in Ssh: authorized_keys.go in Keys, reading and updating sshd_config.go in Config,
--   with Update for the text and Includes for the files, its commands in Daemon, and handler.go in
--   Handler. Host is what all of them call of the operating system. Keys/Wanted says which lines a file
--   of keys is to hold, Daemon/Commands which commands restart the daemon and what names its ports.
--
-- Text has what these parts use of Go's strings, strconv, bufio, regexp and path/filepath packages,
-- where a regular expression is read byte by byte; Base has the shared types, numbers, lists and
-- results. Strings are byte strings, lists of native numbers. A function that returns a value and
-- an error is an Outcome. Code that changes state takes the state and gives the next one.
--
-- Fuel and bounds: cte_loop has the length of its text and one more, and each round takes a byte at
-- least; write_loop has the length of the text that is written and one more, as each round takes a
-- byte, but for a first one that writes out a block left full; drain, a caller that reads until the
-- end, has the length of the input and one more; format_int has twenty digits for a 64-bit number,
-- and a regular expression repeats at most once for each byte that is left. The block index and the
-- length prefix wrap around at their 64 and 32 bits. All other loops are structural.
--
-- Parameters: the mapping of text outside ASCII to lower case, the AEAD of crypto/cipher with what it
-- documents, base64, HMAC and JSON, the random source, the writer, the operating system, database/sql,
-- the shell, systemctl and sshd.
--
-- Not modelled: the messages of errors, logging, locks and elapsed time; List of the file manager, the
-- checks of the key in the constructors of the streams; and the other files of the repository, which
-- are the operations on databases and users, export and restore, the vault, log shipping, monitoring,
-- certificates, the other file operations and the agent's connection.
pub mod Base
pub mod Ssh
pub mod Text
pub mod Database
pub mod Filesystem
pub mod Executor
