-- ===== src/Lib.antt =====
-- A model of proton-carddav-sync, a program that keeps the contacts of a Proton account and of a
-- CardDAV server alike, and theorems about it. Paths are from the repository's root.
--
-- The program. A run lists the contacts of the two sides, merges the two cards of each contact
-- property by property against the texts that the last run left in a local database (the bases), and
-- writes what changed. Both sides are reached over the network and may fail at any call; the database
-- may fail at any statement, and the context may be done at any look at it.
--
-- The modules.
--   * Base: Go's comparisons, maps (association lists whose order stands for the order of `range`),
--     sorted texts, errors as values (Result), code that changes a state and may fail (Exec), and five
--     kinds of rules about such code: invariants (Keeps), success under an invariant (Succeeds), success
--     and failure from one state (Yields, Fails), and what holds where it returns (Ensures).
--   * Time: `time.Parse` for the four layouts of RevTime, on the codes of a text.
--   * Vcard: the Card and Field of github.com/emersion/go-vcard, maps that the program reads and
--     writes itself. That library's parser and printer are a parameter, the Codec.
--   * Library: what the program takes from outside: the codec, the order in which `range` visits a
--     set, and SHA-256.
--   * Config: internal/config/config.go. File has Load and Save over viper, which is a parameter; Paths
--     the expansion of the home directory; Settings what viper does by its documentation.
--   * Cli: internal/cli. Prompt has prompt.go, Connect withSyncer of sync.go, Commands the commands sync
--     and resync, Init init.go, Daemon the loop of run.go as a machine that takes one event at a time:
--     a signal, a pass, a tick, the end of the context, and what others do to the two servers.
--   * VcardSync: internal/vcardsync/merge.go. Fields has fieldsEqual, fieldKeys and unionKeys; Overlay
--     has Overlay; ThreeWay has ThreeWay, RevTime and NewerSide; Strings has the functions on texts.
--   * Db: internal/db. Contacts has the functions of contact_store.go over a table keyed by UID,
--     Secrets those of db.go over the one row of credentials, Schema the migration over tables of
--     column names, Open the function Open. A list of faults says which of the next statements fail.
--   * Crypto: internal/crypto/crypto.go, over AES-GCM, PBKDF2 and a random reader as
--     parameters; RandomKey has NewRandomKey, with base64.
--   * Session: internal/syncer/crypto_shim.go, with the parts of internal/cli/init.go and sync.go that
--     store the secrets of a session and a rotated refresh token.
--   * Protonmail, Carddav: the interfaces ContactsClient that the syncer uses, as records of
--     operations over a state that is left open. A theorem about the syncer holds for every client.
--     Protonmail/Client has the methods of internal/protonmail/contacts.go over the calls of
--     go-proton-api, which are a parameter, as is the key ring; it fills the interface.
--     Carddav/Client has internal/carddav/client.go over the calls of go-webdav likewise, and
--     Carddav/Transport the transport that adds the credentials to its requests.
--     Protonmail/Cards is the part of internal/protonmail/contacts.go that splits a vCard into a signed
--     and an encrypted card; the key ring is a parameter. Protonmail/Login, Limiter and Transport are
--     internal/protonmail/client.go: the session of a client, the pacing of its requests, and the
--     headers that they get.
--   * Syncer: internal/syncer/syncer.go. Index has protonByUID and carddavIndex, OneWay the two one-way
--     directions, Reconcile the bidirectional one, Force ForceContacts, Sync the choice between them.
--     Reconcile/Quiet and Again are about a run where nothing changed, Reconcile/Retries about writes
--     that fail, Reconcile/Deletions about a contact that has a record and that CardDAV lacks, and
--     OneWay/Recreates about such a contact in a sync from Proton.
--   * Tests: runs and instances at concrete inputs.
--
-- Loops are recursion on the list that they range over. The one loop without a list looks for a free
-- group of an e-mail; its fuel is one more than the number of groups to avoid, so
-- that one of the groups that it tries is free. Numbers are unbounded:
-- the counters of a run count contacts. A negative cap is 0, which means what it means in the code.
-- Log lines are left out. The time that a written record carries is the zero time, as in the code.
-- A duration of the daemon is the 64 bits of Go's product, which may overflow; the times of the rate
-- limiter are unbounded numbers of nanoseconds.
--
-- Not modelled: what SQLite does with its file; the calls of go-proton-api, go-webdav, viper and the
-- cryptographic libraries, which are parameters; the registration of the commands with cobra; the
-- command idle, which only waits; the rotation of the refresh token by a later call of the API, whose
-- handler is the callback of ResumeSession; the pauses of the rate limiter between the calls of a run;
-- the choice of a log handler; text that is printed or logged. A text that a user types without echo,
-- and the code for a second factor, are inputs of the model.
pub mod Base
pub mod Time
pub mod Vcard
pub mod VcardSync
pub mod Library
pub mod Config
pub mod Cli
pub mod Crypto
pub mod Db
pub mod Session
pub mod Protonmail
pub mod Carddav
pub mod Syncer
pub mod Tests
