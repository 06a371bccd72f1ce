-- ===== src/Lib.antt =====
-- Connexia is an SSH client with a server that relays connections and keeps each user's data as one
-- encrypted blob. This library models the web dashboard, the JavaScript under
-- server/internal/web/static/js/dashboard, as far as it has state and rules of its own: the keys it
-- generates and the texts it encrypts, the data it synchronises, the terminal sessions it opens, its
-- file transfers, and the metrics of the hosts that it watches.
--
-- The parts and how they meet:
--
-- * Crypto (crypto.js). `Concat`, `Writer` and `Reader` are the byte arrays and the wire format of
--   SSH, `Base64` the text helpers with `encryptString` and `decryptString`, `PrivateKey` the OpenSSH
--   key files that `opensshPrivateKey` writes and `publicKeyFromPrivate` reads, and `Generate`
--   `generateSshKey`. `Platform` holds what the browser does: `btoa`, `atob`, `TextEncoder`,
--   `TextDecoder` and AES-GCM are parameters, and `Documented` lists what the code relies on.
-- * Store (store.js, api.js, and syncapi/sync.go under server/internal). `Payload` is the data with
--   `normalize`, `Server` the two handlers `HandleGet` and `HandlePost` for one user, and `Client` the
--   state of the page with `refresh`, `mutate` and `loadVaultKey`; `Rows` is `upsert`. The client
--   seals payloads by `encryptString`. Arguments by the number of requests sent are: what other
--   clients post before a request; whether it is answered, denied before the handlers, lost on its
--   way there or back, or answered with a body that cannot be read; and the answer to a request of
--   the poll or of `Sync now` that arrives between the clone of the data and the post.
-- * Ssh (ssh/sessions.js and ssh/client.js). `Slots` is the queue that `acquireSlot` and
--   `releaseSlot` keep, `Session` what each function does to one session, `Page` the state of the
--   module, and `Sessions` its functions: a step for each call, for each answer of a connection and
--   for each timer. A run is a list of such events in any order, each with the
--   limit that the settings give then. `HostKeys` is `checkHostKey`,
--   `trustHostKey` and `verifyHostKey`, and `Auth` is `resolveAuth`.
-- * Sftp (screens/sftp.js, and `readAll` of server/webssh/main.go). `Paths` is `normalizePath`,
--   `joinPath`, `parentPath` and the crumbs, `Sides` the two panes with `connectRemote`, `list` and
--   `dropSide`, as events in any order, and `Transfers` is `download`, `copyBetween` and `uploadFile`.
-- * Metrics (controller.js, collect.js and history.js under metrics). `Shell` is what is run on a
--   host, with `shQuote`, `runServiceAction` and the crontab, and its `Quoting` a reader of such
--   scripts as POSIX describes it: its words, and its here-documents with a quoted mark. `Sections`, `Reports` and `Inventory` read what a host prints, as `parseSample`
--   does. `Rates` is `finalizeRates`, with quotients as pairs, and `Backoff` what `connectFailed` and
--   `poll` say about the next attempt. `Pool` holds the connection objects and the running polls, and
--   `Controller` the handlers over them: `doPoll` in the stretches between its waits, `sync`, and the
--   policies. `Step` makes an event of each call and of each answer, and a run is a list of events in
--   any order. `History` is `prune`, `add` and `load`, over a database that may refuse at once or
--   later.
-- * Screens (screens/hosts.js and screens/tunnels.js). `Hosts` is the list of hosts with its order,
--   search and selection, and `Forms` the edits that are handed to `app.save`, with the form of a host,
--   and `GroupForms` the form of a group. `Tunnels` is the list and the form of the tunnels.
--
-- `Common` holds what these share: arrays as lists, texts as lists of code units, `parseInt`, `trim`
-- and the printing of numbers. The modules named Tests hold runs and the theorems at concrete
-- inputs; `Crypto.Toy` and `Store.Toy` are a browser and a `JSON` that meet the documented laws.
--
-- Bounds and fuel. `binary_loop` takes at least one byte a round and has the length of its input and
-- one more as fuel; `pad_loop` adds at most 8 bytes; `lines_of` has the length of its text, and
-- `digits_of` more than the number it prints. The loop of `mutate` recurses on the conflicts that it
-- still retries, three at first. Numbers of the code stay below 2 ^ 53, and the model has no bound.
--
-- Abstractions. An event runs whole, as JavaScript runs what stands between two `await`s. A session
-- that is closed is one that is not in the list, since `closeSession` sets `closed` and removes it
-- at once. The identifier of a session is its sequence number, and a connection is a number. The
-- rows of the synchronised tables are of any type, and a table that is not an array is absent. A poll
-- of the metrics that has ended is taken out of `polling` at once, where the code does so in the next
-- microtask, and a connection object that is not its host's any more is not kept, since `drop` has
-- closed it and only the poll that holds it can still write to it.
--
-- Not modelled: the terminal itself with its resize timers, search and keys; `detectOs`; `vault.encrypt`, which the forms of a host take as an argument; the
-- screens but for what is named above, dialogs and DOM helpers, which build elements; the numbers with
-- fractions of a report and the timers of the metrics; the local folders and prompts of the file
-- transfers; the other endpoints, the storage and the authentication of the server; and the native
-- application.
pub mod Common
pub mod Crypto
pub mod Store
pub mod Ssh
pub mod Sftp
pub mod Metrics
pub mod Screens
