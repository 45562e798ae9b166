-- ===== src/Lib.antt =====
-- Verification of tmpmail, a disposable mailbox service: an SMTP server accepts mail for one domain, a
-- store keeps it on disk for a while and within a cap, and an HTTP API shows it. All Go paths are
-- from the root of the repository; most of the code is in internal/app.
--
-- Files. Each names in its first lines the code that it models.
--   Common      shared names, lists, byte strings with the functions of Go's package strings that
--               the program calls, the order of texts, and integers
--   Config      internal/app/config.go. Load is LoadConfig and its helpers, Host is normalizeTLSHost of
--               internal/app/autotls.go
--   Address     normalizeRecipient, containsRecipient and accepts of internal/app/smtp.go
--   Store       internal/app/store.go. State holds the store and the monad of its operations, Tables
--               the SQL statements as functions on tables, Post the rules to reason about the monad,
--               Valid the invariant. Pending is drainPendingLocked, drainPendingBatchLocked,
--               discardFileLocked and loadStorageUsage; Evict is evictTx and deleteMessageTx; Save is
--               Save and mailDetails; Cleanup is Cleanup and cleanupBatchLocked; Read is ListPage,
--               List, Get and Status; Recovery is normalizeStoredRecipients
--   Smtp        internal/app/smtp.go. Admission is the listener, the admitted connection and the map
--               of sources; Session is smtpSession; Certificate is the certificate reloader
--   Http        internal/app/http.go, in part. Inbox is ListInboxMessages and pageOffset, Raw is
--               splitRawMessage, Recorder is responseRecorder and the status of requestLogger,
--               Mail is GetMessage and GetMessageAttachment, Page is renderInbox, Limits is
--               limitHTTPRequests, with rateLimitPerIP and resolvedClientIP of internal/app/ratelimit.go
--   Mime        internal/app/mime.go. Html is removeUnsafeHTML, Render what sanitizeHTMLWithImages and
--               htmlText make of a tree, Parts the walk over the parts, parseEmailWithImages and
--               AttachmentContent
--   Analytics   internal/app/analytics.go. State holds the state and the monad of the database work,
--               Tables is writeBatch, prune, usage and maintain, Worker is OpenAnalytics, Record, open,
--               run and Close, as steps that happen in any order
--   TlsStatus   tlsServiceStatus of internal/app/tls_status.go
--   Samples     data for the tests
-- The modules below a component hold its proofs, and those named Tests run it at concrete inputs.
--
-- How the parts interact: a session collects an envelope by Rcpt, with the address functions, and
-- its Data calls Save; Save calls evictTx in its transaction and drains the queue of files before
-- and after; the inbox handler calls ListPage, the handlers of a message and of its attachments
-- call Get and the walk over the parts; Cleanup and Save share deleteMessageTx and the queue.
--
-- Failures. Each call of SQLite, of the file system or of a directory sync takes the next entry of a
-- schedule that says whether it succeeds; the theorems hold for every schedule. A statement that
-- fails changes nothing; a transaction whose body or commit fails leaves the database as it was.
-- The clock and the random names are arguments (Draws). net/mail and mime are the parameter
-- MailParser, crypto/x509 is the parameter X509, and strings.ToValidUTF8 is a parameter. The mail
-- and MIME readers, the charsets and the decoders of message bodies are MimeLibrary, the HTML parser
-- and printer with net/url are HtmlLibrary, and strconv, time.ParseDuration, net/http, net and idna
-- of the settings are ConfigLibrary and HostLibrary; the environment is a function.
--
-- Bounds. Byte counts and message counts are unbounded integers here, int64 in the code. The loop of
-- evictTx and that of Cleanup run on fuel, one more than the rows of messages; each round of evictTx,
-- and each full round of Cleanup, removes a row, and the theorems exclude the error of spent fuel.
-- Go channels of tokens are numbers, the map of sources an association list. The walk over the parts
-- of a message runs on fuel, one more than the length of the body: each part is shorter than the
-- body around it. The shutdown of the analytics worker runs on fuel, one more than the queue: each
-- round but the first takes an event off the queue, or gives the database up.
--
-- Simplifications. strings.ToLower and strings.EqualFold fold A to Z only, as they do on ASCII
-- texts. A SELECT without ORDER BY returns rows in the order of their rowids. A file name is joined
-- to a directory by a slash. Metrics and logs are left out. Operations under the lock of the store
-- are atomic; Cleanup gives the lock up between its batches in the code, and not in the model.
--
-- Not modelled: opening and the rest of the recovery of the store, the rest of the HTTP API, the
-- migration of the analytics tables and the lag of the status, issuing certificates, manual HTTPS,
-- the limiter of tollbooth, the administration pages, the metrics, cmd/tmpmail and canary;
-- internal/api is generated.
pub mod Common
pub mod Address
pub mod Config
pub mod Store
pub mod Smtp
pub mod Samples
pub mod Http
pub mod Mime
pub mod Analytics
pub mod TlsStatus
